-- ===== src/Capability/Read/Keys.antt =====
-- The attempt key of internal/capability/read.go: what is hashed determines the request.
use tappet.Capability.Read.{big_endian, framed, decimal, attempt_fields, ReadRequest}
use tappet.Prelude.{
  ℕ, zero, suc, ◌+◌, ◌/◌, ◌%◌, ◌<◌, ◌^◌, ◌≡◌, refl, List, [], ◌∷◌, ◌++◌, arith, length,
  length-append, Bytes, ap, ◌∙◌, sym, ◌*◌, ◌-◌,
}

length-big_endian : (k n : ℕ) → length (big_endian k n) ≡ k
unfolding big_endian
length-big_endian zero n = refl
length-big_endian (suc k) n =
    omega
      (arith, length-big_endian k (n / 256), length-append (big_endian k (n / 256)) (n % 256 ∷ []))

-- Equal fronts and equal rests of lists whose fronts are equally long.
append_inj :
    (xs ys us vs : Bytes) → length xs ≡ length ys → xs ++ us ≡ ys ++ vs → (xs ≡ ys) × (us ≡ vs)
append_inj [] [] us vs l e = (refl, e)
append_inj [] (y ∷ ys) us vs l e = absurd (ground arith)
append_inj (x ∷ xs) [] us vs l e = absurd (ground arith)
append_inj (x ∷ xs) (y ∷ ys) us vs l e =
    let rest = append_inj xs ys us vs (omega arith) (ground arith) in (ground (arith, rest), rest.1)

abbrev Agree : ℕ → ℕ → ℕ → Type 0
Agree zero n m = Unit
Agree (suc k) n m = Agree k (n / 256) (m / 256) × (n % 256 ≡ m % 256)

big_endian-Agree : (k n m : ℕ) → big_endian k n ≡ big_endian k m → Agree k n m
unfolding big_endian
big_endian-Agree zero n m e = tt
big_endian-Agree (suc k) n m e =
    let (front, last) =
      append_inj (big_endian k (n / 256)) (big_endian k (m / 256)) (n % 256 ∷ []) (m % 256 ∷ [])
        (length-big_endian k (n / 256) ∙ sym (length-big_endian k (m / 256))) e in
    (big_endian-Agree k (n / 256) (m / 256) front, ground (arith, last))

big_endian_inj : (n m : ℕ) → n < 2 ^ 64 → m < 2 ^ 64 → big_endian 8 n ≡ big_endian 8 m → n ≡ m
big_endian_inj n m hn hm e = let a = big_endian-Agree 8 n m e in omega (arith, a)

-- No field is as long as 2 ^ 64 bytes.
abbrev pub AllShort : List Bytes → Type 0
AllShort [] = Unit
AllShort (v ∷ vs) = (length v < 2 ^ 64) × AllShort vs

framed-cons-ne : (v : Bytes) (vs : List Bytes) → framed [] ≡ framed (v ∷ vs) → ⊥
unfolding framed
framed-cons-ne v vs e =
    let n = ap length e in
    omega (
      arith,
      n,
      length-append (big_endian 8 (length v)) (v ++ framed vs),
      length-big_endian 8 (length v),
    )

-- The framing of fields is injective: two lists of fields, none as long as 2 ^ 64 bytes, that are
-- framed as the same bytes are the same, however many fields they have.
pub framed_inj : (vs us : List Bytes) → AllShort vs → AllShort us → framed vs ≡ framed us → vs ≡ us
unfolding framed
framed_inj [] [] hv hu e = refl
framed_inj [] (u ∷ us) hv hu e = absurd (framed-cons-ne u us e)
framed_inj (v ∷ vs) [] hv hu e = absurd (framed-cons-ne v vs (sym e))
framed_inj (v ∷ vs) (u ∷ us) hv hu e =
    let (sizes, rest) =
      append_inj (big_endian 8 (length v)) (big_endian 8 (length u)) (v ++ framed vs)
        (u ++ framed us) (length-big_endian 8 (length v) ∙ sym (length-big_endian 8 (length u)))
        e in
    let (same, others) =
      append_inj v u (framed vs) (framed us) (big_endian_inj (length v) (length u) hv.0 hu.0 sizes)
        rest in
    let tail = framed_inj vs us hv.1 hu.1 others in rw (same, tail) refl

-- The number that digits spell.
abbrev value : ℕ → Bytes → ℕ
value acc [] = acc
value acc (c ∷ s) = value (10 * acc + (c - 48)) s

value-snoc : (acc : ℕ) (s : Bytes) (c : ℕ) → value acc (s ++ c ∷ []) ≡ 10 * value acc s + (c - 48)
value-snoc acc [] c = refl
value-snoc acc (x ∷ s) c = value-snoc (10 * acc + (x - 48)) s c

value-decimal : (f n : ℕ) → n < 10 ^ f → value 0 (decimal f n) ≡ n
unfolding decimal
value-decimal zero n h = omega arith
value-decimal (suc f) n h =
    ground (arith, value-decimal f (n / 10), value-snoc 0 (decimal f (n / 10)) (48 + n % 10))

decimal_inj : (n m : ℕ) → n < 2 ^ 64 → m < 2 ^ 64 → decimal 20 n ≡ decimal 20 m → n ≡ m
decimal_inj n m hn hm e =
    sym (value-decimal 20 n (omega arith)) ∙ ap (value 0) e ∙ value-decimal 20 m (omega arith)

-- Fields that a request within its bounds has.
pub record IsBounded (scope : Bytes) (request : ReadRequest) : Type 0 where
  pub short : AllShort (attempt_fields scope request)
  pub offset : request.offset < 2 ^ 64
  pub size : request.max_bytes < 2 ^ 64

six :
    {a b c d e f a' b' c' d' e' f' : Bytes}
    → a ∷ b ∷ c ∷ d ∷ e ∷ f ∷ [] ≡ a' ∷ b' ∷ c' ∷ d' ∷ e' ∷ f' ∷ []
    → (a ≡ a') × (b ≡ b') × (c ≡ c') × (d ≡ d') × (e ≡ e') × (f ≡ f')
six h = ground arith

-- What is hashed into the attempt key determines the caller's scope and the whole request: two
-- requests with numbers below 2 ^ 64 and fields shorter than that, framed as the same bytes, are
-- equal, and so are their scopes.
pub attempt_fields_inj :
    (scope scope' : Bytes) (request request' : ReadRequest)
    → IsBounded scope request
    → IsBounded scope' request'
    → framed (attempt_fields scope request) ≡ framed (attempt_fields scope' request')
    → (scope ≡ scope') × (request ≡ request')
unfolding attempt_fields
attempt_fields_inj scope scope' request request' b b' e =
    let fields =
      framed_inj (attempt_fields scope request) (attempt_fields scope' request') b.short b'.short
        e in
    let (same_scope, same_id, same_ref, same_attempt, at, size) = six fields in
    let same_at = decimal_inj request.offset request'.offset b.offset b'.offset at in
    let same_size = decimal_inj request.max_bytes request'.max_bytes b.size b'.size size in
    (same_scope, ground (arith, same_id, same_ref, same_attempt, same_at, same_size))
