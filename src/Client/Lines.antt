-- ===== src/Client/Lines.antt =====
-- `boundedLineReader` of internal/client/response_limit.go. The input is the bytes that are still to
-- come, after which the reader fails (with `io.EOF`, say); `read_slice` is `bufio.Reader.ReadSlice('\n')`
-- with the buffer of `bufio.NewReader`. `validateJSONMessage` is a parameter: a test on a line.
pub mod Whole
use tappet.Prelude.{
  ℕ, zero, suc, ◌+◌, Bool, true, false, Option, none, some, List, [], ◌∷◌, ◌++◌, ltb, ◌==◌,
  if◌then◌else◌, length, is_empty, take, drop, Bytes, Result, ok, err,
}

abbrev pub newline : ℕ
newline = 10

abbrev pub buffer_size : ℕ
buffer_size = 4096

-- How a slice ends: at the newline, at the end of the buffer, or where the reader fails.
pub data SliceEnd : Type 0 where
  delimited buffer_full failed : SliceEnd

pub record Slice : Type 0 where
  pub fragment : Bytes
  pub ending : SliceEnd
  pub rest : Bytes

abbrev in_front : ℕ → Slice → Slice
in_front c s = record s { fragment = c ∷ s.fragment }

-- `ReadSlice`, with `room` bytes left in the buffer.
unfoldable pub read_slice : ℕ → Bytes → Slice
read_slice zero s = record { fragment = []; ending = buffer_full; rest = s }
read_slice (suc n) [] = record { fragment = []; ending = failed; rest = [] }
read_slice (suc n) (c ∷ s) =
    let more = read_slice n s in
    if c == newline
    then record { fragment = c ∷ []; ending = delimited; rest = s }
    else in_front c more

pub data LineError : Type 0 where
  response_limit_exceeded invalid_message read_failed : LineError

-- A line that was read, and the reader's error if it came with it.
pub record Line : Type 0 where
  pub content : Bytes
  pub failure : Option LineError

-- `boundedLineReader`; `limit_signals` counts the calls of `onLimit`.
pub record BoundedLineReader : Type 0 where
  pub input : Bytes
  pub max_bytes : ℕ
  pub pending : Bytes
  pub pending_err : Option LineError
  pub limit_signals : ℕ

module _ (valid : Bytes → Bool) where
  -- `validateLine`
  unfoldable pub validate_line : Bytes → Option LineError → Result LineError Line
  validate_line line failure =
      if is_empty line
      then ok (record { content = line; failure = failure })
      else if valid line
      then ok (record { content = line; failure = failure })
      else err invalid_message

  -- `limitSignal.Do`
  abbrev pub signal_limit : BoundedLineReader → BoundedLineReader
  signal_limit r = record r { limit_signals = if r.limit_signals == 0 then 1 else r.limit_signals }

  -- The loop of `readLine`, with the line so far; none when the fuel runs out.
  unfoldable pub read_fragments :
      ℕ → Bytes → BoundedLineReader → Option (Result LineError Line × BoundedLineReader)
  unfolding read_slice validate_line
  read_fragments zero line r = none
  read_fragments (suc fuel) line r =
      let slice = read_slice buffer_size r.input in
      let after = record r { input = slice.rest } in
      let grown = line ++ slice.fragment in
      let more = read_fragments fuel grown after in
      if ltb r.max_bytes (length line + length slice.fragment)
      then some (err response_limit_exceeded, signal_limit after)
      else elim slice.ending [
        | delimited ↦ some (validate_line grown none, after)
        | buffer_full ↦ more
        | failed ↦ some (validate_line grown (some read_failed), after)
      ]

  -- `readLine`: each turn but the last takes a whole buffer.
  unfoldable pub read_line : BoundedLineReader → Option (Result LineError Line × BoundedLineReader)
  unfolding read_fragments
  read_line r = read_fragments (suc (length r.input)) [] r
