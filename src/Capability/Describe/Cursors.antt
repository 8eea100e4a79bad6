-- ===== src/Capability/Describe/Cursors.antt =====
-- `boundedPage` and the cursors of internal/capability/describe.go.
use tappet.Capability.Describe.{Projection, DescribeResponse, projection_item_count}
use tappet.Capability.Describe.Store.{
  service_quota, Codec, fits_response, page_of, shrink, bounded_page,
}
use tappet.Prelude.{
  ℕ, zero, suc, ◌+◌, ◌-◌, ◌≤◌, ◌<◌, ◌≡◌, refl, sym, ap, ◌∙◌, true, false, Bool-cases, inl, inr,
  none, some, Option-cases, arith, ltb, leb, if◌then◌else◌, Bytes, ok, err, if_true, if_false,
  some_inj, le_suc-cases, ok_inj,
}

abbrev min_limit : ℕ → ℕ → ℕ
min_limit remaining limit = if ltb remaining limit then remaining else limit

min_limit_le :
    (count offset limit k : ℕ)
    → leb count offset ≡ false
    → k ≤ min_limit (count - offset) limit
    → (k ≤ limit) × (offset + k ≤ count)
min_limit_le count offset limit k before h = ground arith

le_min_limit :
    (count offset limit m : ℕ)
    → m ≤ limit
    → offset + m ≤ count
    → m ≤ min_limit (count - offset) limit
le_min_limit count offset limit m h k = ground arith

module _ (codec : Codec) (key : Bytes) (p : Projection) (offset limit : ℕ) (id : Bytes) where
  shrink-eq-some :
      (k : ℕ) (response : DescribeResponse) (n : ℕ)
      → shrink codec key p offset limit id k ≡ some (response, n)
      → (0 < n)
        × (n ≤ k)
        × (response ≡ page_of codec key p offset limit id n)
        × (fits_response codec response ≡ true)
        × ((m : ℕ)
            → n < m
            → m ≤ k
            → fits_response codec (page_of codec key p offset limit id m) ≡ false)
  unfolding shrink
  shrink-eq-some zero response n h = cc
  shrink-eq-some (suc k) response n h =
      elim (Bool-cases (fits_response codec (page_of codec key p offset limit id (suc k)))) [
        | inl fits ↦
            let page = page_of codec key p offset limit id (suc k) in
            let took =
              if_true (fits_response codec page) (some (page, suc k))
                (shrink codec key p offset limit id k) fits in
            let same = some_inj (page, suc k) (response, n) (sym took ∙ h) in
            let size : n ≡ suc k = sym (ap (λ (q : DescribeResponse × ℕ). q.1) same) in
            let made : response ≡ page = sym (ap (λ (q : DescribeResponse × ℕ). q.0) same) in
            (
              omega (arith, size),
              omega (arith, size),
              rw (made, size) refl,
              rw (made) fits,
              λ m above below. absurd (omega (arith, size)),
            )
        | inr large ↦
            let page = page_of codec key p offset limit id (suc k) in
            let left =
              if_false (fits_response codec page) (some (page, suc k))
                (shrink codec key p offset limit id k) large in
            let (positive, within, made, fits, best) = shrink-eq-some k response n (sym left ∙ h) in
            (
              positive,
              omega arith,
              made,
              fits,
              λ m above below. elim (le_suc-cases m k below) [
                | inl top ↦ rw (top) large
                | inr lower ↦ best m above lower
              ],
            )
      ]

  shrink-eq-none :
      (k : ℕ)
      → shrink codec key p offset limit id k ≡ none
      → (m : ℕ) → 0 < m
      → m ≤ k
      → fits_response codec (page_of codec key p offset limit id m) ≡ false
  unfolding shrink
  shrink-eq-none zero h m above below = absurd (omega arith)
  shrink-eq-none (suc k) h m above below =
      let page = page_of codec key p offset limit id (suc k) in
      elim (Bool-cases (fits_response codec (page_of codec key p offset limit id (suc k)))) [
        | inl fits ↦ absurd (
            cc (
              sym (
                if_true (fits_response codec page) (some (page, suc k))
                  (shrink codec key p offset limit id k) fits)
              ∙ h))
        | inr large ↦ elim (le_suc-cases m k below) [
          | inl top ↦ rw (top) large
          | inr lower ↦
              shrink-eq-none k
                (sym (
                    if_false (fits_response codec page) (some (page, suc k))
                      (shrink codec key p offset limit id k) large)
                  ∙ h)
                m above lower
        ]
      ]

  pub bounded_page-eq-ok :
      (response : DescribeResponse) (n : ℕ)
      → bounded_page codec key p offset limit id ≡ ok (response, n)
      → (0 < n)
        × (n ≤ limit)
        × (offset + n ≤ projection_item_count p)
        × (response ≡ page_of codec key p offset limit id n)
        × (fits_response codec response ≡ true)
        × ((m : ℕ)
            → n < m
            → m ≤ limit
            → offset + m ≤ projection_item_count p
            → fits_response codec (page_of codec key p offset limit id m) ≡ false)
  unfolding bounded_page
  bounded_page-eq-ok response n h =
      let top = min_limit (projection_item_count p - offset) limit in
      elim (Bool-cases (leb (projection_item_count p) offset)) [
        | inl past ↦ absurd (cc (sym (if_true (leb (projection_item_count p) offset) _ _ past) ∙ h))
        | inr before ↦ elim (Option-cases (shrink codec key p offset limit id top)) [
          | inl nothing ↦
              (let step : bounded_page codec key p offset limit id ≡ err service_quota =
                  rw (before, nothing, bounded_page) refl in
                absurd (cc (sym step ∙ h)))
          | inr ((r, k), got) ↦
              let step : bounded_page codec key p offset limit id ≡ ok (r, k) =
                rw (before, got, bounded_page) refl in
              let same = ok_inj (r, k) (response, n) (sym step ∙ h) in
              let size : k ≡ n = ap (λ (q : DescribeResponse × ℕ). q.1) same in
              let its : r ≡ response = ap (λ (q : DescribeResponse × ℕ). q.0) same in
              let (positive, within, made, fits, best) = shrink-eq-some top r k got in
              let (small, inside) =
                min_limit_le (projection_item_count p) offset limit k before within in
              (
                rw (sym size) positive,
                rw (sym size) small,
                rw (sym size) inside,
                rw (sym its, sym size) made,
                rw (sym its) fits,
                λ m above below within'.
                    best m (rw (size) above)
                      (le_min_limit (projection_item_count p) offset limit m below within'),
              )
        ]
      ]

  -- A page of `boundedPage` is the largest that fits: any longer one, within the limit and what is left,
  -- would be too large when encoded.
  pub bounded_page_largest :
      (response : DescribeResponse) (n m : ℕ)
      → bounded_page codec key p offset limit id ≡ ok (response, n)
      → n < m
      → m ≤ limit
      → offset + m ≤ projection_item_count p
      → (fits_response codec response ≡ true)
        × (fits_response codec (page_of codec key p offset limit id m) ≡ false)
  bounded_page_largest response n m h above below inside =
      let (_, _, _, _, fits, best) = bounded_page-eq-ok response n h in
      (fits, best m above below inside)

  -- A bounded page is returned whenever there is an item left, the limit is positive and the
  -- page of one item fits.
  pub bounded_page-total :
      offset < projection_item_count p
      → 0 < limit
      → fits_response codec (page_of codec key p offset limit id 1) ≡ true
      → (response : DescribeResponse) × (n : ℕ) × (bounded_page codec key p offset limit id
          ≡ ok (response, n))
  unfolding bounded_page
  bounded_page-total before positive fits =
      let top = min_limit (projection_item_count p - offset) limit in
      let some_room : 1 ≤ top = ground (arith, before, positive) in
      let inside : leb (projection_item_count p) offset ≡ false = ground (arith, before) in
      elim (Option-cases (shrink codec key p offset limit id top)) [
        | inl nothing ↦
            absurd (cc (sym (shrink-eq-none top nothing 1 (omega arith) some_room) ∙ fits))
        | inr ((r, k), got) ↦ (r, k, rw (inside, got, bounded_page) refl)
      ]
