-- ===== src/Client/Lines/Whole.antt =====
-- `readLine` of internal/client/response_limit.go against lines read at once.
use tappet.Client.Lines.{
  newline, buffer_size, SliceEnd, delimited, buffer_full, failed, Slice, read_slice, LineError,
  response_limit_exceeded, read_failed, BoundedLineReader, validate_line, signal_limit,
  read_fragments, read_line,
}
use tappet.Prelude.{
  ℕ, zero, suc, ◌+◌, ◌≤◌, ◌<◌, ◌≡◌, ◌⊎◌, refl, sym, ap, ◌∙◌, Bool, false, Bool-cases, inl, inr,
  Option, none, some, [], ◌∷◌, ◌++◌, arith, ltb, ◌==◌, if◌then◌else◌, length, length-append,
  append_assoc, Bytes, err,
}

-- The bytes up to a newline and with it, or all of them.
abbrev pub line_of : Bytes → Bytes
line_of [] = []
line_of (c ∷ s) = let rest = line_of s in if c == newline then c ∷ [] else c ∷ rest

abbrev pub after_line : Bytes → Bytes
after_line [] = []
after_line (c ∷ s) = let rest = after_line s in if c == newline then s else rest

-- The reader's error, if no newline comes before it.
abbrev pub failure_of : Bytes → Option LineError
failure_of [] = some read_failed
failure_of (c ∷ s) = let rest = failure_of s in if c == newline then none else rest

-- What a slice is of the line.
abbrev Fits : Bytes → Slice → Type 0
Fits s t = elim t.ending [
  | delimited ↦ (line_of s ≡ t.fragment) × (after_line s ≡ t.rest) × (failure_of s ≡ none)
  | buffer_full ↦
      (line_of s ≡ t.fragment ++ line_of t.rest)
      × (after_line s ≡ after_line t.rest)
      × (failure_of s ≡ failure_of t.rest)
  | failed ↦ (line_of s ≡ t.fragment) × (after_line s ≡ t.rest) × (failure_of s ≡ some read_failed)
]

read_slice-Fits : (n : ℕ) (s : Bytes) → Fits s (read_slice n s)
unfolding read_slice
read_slice-Fits zero s = (refl, refl, refl)
read_slice-Fits (suc n) [] = (refl, refl, refl)
read_slice-Fits (suc n) (c ∷ s) = ground (arith, read_slice-Fits n s)

-- A slice takes bytes off the input, and a full buffer takes as many as it has room for.
read_slice-length :
    (n : ℕ) (s : Bytes) → length (read_slice n s).fragment + length (read_slice n s).rest ≡ length s
unfolding read_slice
read_slice-length zero s = omega arith
read_slice-length (suc n) [] = omega arith
read_slice-length (suc n) (c ∷ s) = ground (arith, read_slice-length n s)

read_slice-full :
    (n : ℕ) (s : Bytes)
    → (read_slice n s).ending ≡ buffer_full
    → length (read_slice n s).fragment ≡ n
unfolding read_slice
read_slice-full zero s h = refl
read_slice-full (suc n) [] h = absurd (ground arith)
read_slice-full (suc n) (c ∷ s) h = ground (arith, read_slice-full n s)

End-cases : (e : SliceEnd) → (e ≡ delimited) ⊎ (e ≡ buffer_full) ⊎ (e ≡ failed)
End-cases delimited = inl refl
End-cases buffer_full = inr (inl refl)
End-cases failed = inr (inr refl)

Fits-delimited :
    (s : Bytes) (t : Slice)
    → t.ending ≡ delimited
    → Fits s t
    → (line_of s ≡ t.fragment) × (after_line s ≡ t.rest) × (failure_of s ≡ none)
Fits-delimited s t e f = ground (arith, f)

Fits-full :
    (s : Bytes) (t : Slice)
    → t.ending ≡ buffer_full
    → Fits s t
    → (line_of s ≡ t.fragment ++ line_of t.rest)
      × (after_line s ≡ after_line t.rest)
      × (failure_of s ≡ failure_of t.rest)
Fits-full s t e f = ground (arith, f)

Fits-failed :
    (s : Bytes) (t : Slice)
    → t.ending ≡ failed
    → Fits s t
    → (line_of s ≡ t.fragment) × (after_line s ≡ t.rest) × (failure_of s ≡ some read_failed)
Fits-failed s t e f = ground (arith, f)

small_enough :
    (line fragment : Bytes) (max : ℕ)
    → length line + length fragment ≤ max
    → ltb max (length line + length fragment) ≡ false
small_enough line fragment max h = ground (arith, h)

too_large :
    (line fragment : Bytes) (max : ℕ)
    → max < length line + length fragment
    → ltb max (length line + length fragment) ≡ false
    → ⊥
too_large line fragment max h k = ground (arith, h, k)

module _ (valid : Bytes → Bool) where
  read_fragments-within :
      (fuel : ℕ) (line : Bytes) (r : BoundedLineReader)
      → length r.input < fuel
      → length line + length (line_of r.input) ≤ r.max_bytes
      → read_fragments valid fuel line r
        ≡ some (
          validate_line valid (line ++ line_of r.input) (failure_of r.input),
          record r { input = after_line r.input },
        )
  unfolding read_fragments
  read_fragments-within zero line r enough within = absurd (omega arith)
  read_fragments-within (suc fuel) line r enough within =
      let slice = read_slice buffer_size r.input in
      let after = record r { input = slice.rest } in
      let fits = read_slice-Fits buffer_size r.input in
      let sizes = read_slice-length buffer_size r.input in
      let grown = length-append line slice.fragment in
      elim (End-cases slice.ending) [
        | inl at ↦
            (let (l, a, e) = Fits-delimited r.input slice at fits in
              let small = small_enough line slice.fragment r.max_bytes (rw (sym l) within) in
              rw (small, at, l, a, e, read_fragments) refl)
        | inr (inl full) ↦
            (let (l, a, e) = Fits-full r.input slice full fits in
              let size = read_slice-full buffer_size r.input full in
              let parts = ap length l ∙ length-append slice.fragment (line_of slice.rest) in
              let small =
                small_enough line slice.fragment r.max_bytes (omega (arith, within, parts)) in
              let rest =
                read_fragments-within fuel (line ++ slice.fragment) after
                  (omega (arith, enough, sizes, size)) (omega (arith, within, parts, grown)) in
              rw
                (
                  small,
                  full,
                  l,
                  a,
                  e,
                  sym (append_assoc line slice.fragment (line_of slice.rest)),
                  read_fragments,
                )
                rest)
        | inr (inr end) ↦
            (let (l, a, e) = Fits-failed r.input slice end fits in
              let small = small_enough line slice.fragment r.max_bytes (rw (sym l) within) in
              rw (small, end, l, a, e, read_fragments) refl)
      ]

  -- A full buffer within the limit: the loop goes on.
  read_fragments-full :
      (fuel : ℕ) (line : Bytes) (r : BoundedLineReader)
      → ltb r.max_bytes (length line + length (read_slice buffer_size r.input).fragment) ≡ false
      → (read_slice buffer_size r.input).ending ≡ buffer_full
      → read_fragments valid (suc fuel) line r
        ≡ read_fragments valid fuel
            (line ++ (read_slice buffer_size r.input).fragment)
            (record r { input = (read_slice buffer_size r.input).rest })
  unfolding read_fragments
  read_fragments-full fuel line r small full = rw (small, full, read_fragments) refl

  read_fragments-over :
      (fuel : ℕ) (line : Bytes) (r : BoundedLineReader)
      → length r.input < fuel
      → r.max_bytes < length line + length (line_of r.input)
      → (r' : BoundedLineReader) × (read_fragments valid fuel line r
          ≡ some (err response_limit_exceeded, r'))
        × (r'.limit_signals ≡ (if r.limit_signals == 0 then 1 else r.limit_signals))
  unfolding read_fragments
  read_fragments-over zero line r enough over = absurd (omega arith)
  read_fragments-over (suc fuel) line r enough over =
      let slice = read_slice buffer_size r.input in
      let after = record r { input = slice.rest } in
      let fits = read_slice-Fits buffer_size r.input in
      let sizes = read_slice-length buffer_size r.input in
      let grown = length-append line slice.fragment in
      elim (Bool-cases (ltb r.max_bytes (length line + length slice.fragment))) [
        | inl large ↦ (signal_limit valid after, rw (large, read_fragments) refl, refl)
        | inr small ↦ elim (End-cases slice.ending) [
          | inl at ↦
              (let (l, a, e) = Fits-delimited r.input slice at fits in
                absurd (too_large line slice.fragment r.max_bytes (rw (sym l) over) small))
          | inr (inl full) ↦
              (let (l, a, e) = Fits-full r.input slice full fits in
                let size = read_slice-full buffer_size r.input full in
                let parts = ap length l ∙ length-append slice.fragment (line_of slice.rest) in
                let (r', rest, signals) =
                  read_fragments-over fuel (line ++ slice.fragment) after
                    (omega (arith, enough, sizes, size)) (omega (arith, over, parts, grown)) in
                (r', read_fragments-full fuel line r small full ∙ rest, signals))
          | inr (inr end) ↦
              (let (l, a, e) = Fits-failed r.input slice end fits in
                absurd (too_large line slice.fragment r.max_bytes (rw (sym l) over) small))
        ]
      ]

  -- Where the line at the front of the input is within the limit, reading it through the buffer
  -- of limited size returns exactly that line, validated as a whole, with the failure of the
  -- reader if no newline ended it, and leaves the input after it.
  pub read_line-within :
      (r : BoundedLineReader)
      → length (line_of r.input) ≤ r.max_bytes
      → read_line valid r
        ≡ some (
          validate_line valid (line_of r.input) (failure_of r.input),
          record r { input = after_line r.input },
        )
  unfolding read_line
  read_line-within r within =
      read_fragments-within (suc (length r.input)) [] r (omega arith) (omega (arith, within))

  -- Where the line at the front of the input is longer than the limit, reading it ends with the
  -- limit error, and the limit has been signalled, once over all reads.
  pub read_line-over :
      (r : BoundedLineReader)
      → r.max_bytes < length (line_of r.input)
      → (r' : BoundedLineReader) × (read_line valid r ≡ some (err response_limit_exceeded, r'))
        × (r'.limit_signals ≡ (if r.limit_signals == 0 then 1 else r.limit_signals))
  unfolding read_line
  read_line-over r over =
      read_fragments-over (suc (length r.input)) [] r (omega arith) (omega (arith, over))
