-- ===== src/Capability/Describe/Pages.antt =====
-- The pages of internal/capability/describe.go: a page is a slice of the projection's items, and the
-- pages that follow one another make up all of them.
use tappet.Capability.Describe.{
  SkillDescription, OperationDescription, ReferenceDescription, Projection, DescribeResponse,
  projection_item_count, copy_section, page_projection,
}
use tappet.Prelude.{
  ℕ, ◌+◌, ◌-◌, ◌≡◌, refl, sym, ap, ◌∙◌, Bool-cases, inl, inr, List, [], ◌++◌, map, arith, ◌==◌, ltb,
  leb, length, take, drop, Bytes, take-append, drop-append, length-map, map-take, map-drop,
  length-drop, length-append, take_all, drop_past, append-nil, take-nil, drop-nil,
}

-- An item of any section.
pub data Item : Type 0 where
  skill_item : SkillDescription → Item
  operation_item : OperationDescription → Item
  reference_item : ReferenceDescription → Item

abbrev pub items :
    List SkillDescription → List OperationDescription → List ReferenceDescription → List Item
items skills operations references =
    map skill_item skills ++ (map operation_item operations ++ map reference_item references)

abbrev pub projection_items : Projection → List Item
projection_items p = items p.skills p.operations p.references

abbrev pub response_items : DescribeResponse → List Item
response_items r = items r.skills r.operations r.references

pub length-projection_items :
    (p : Projection) → length (projection_items p) ≡ projection_item_count p
length-projection_items p = omega (
  arith,
  length-append (map skill_item p.skills)
      (map operation_item p.operations ++ map reference_item p.references),
  length-append (map operation_item p.operations) (map reference_item p.references),
  length-map skill_item p.skills,
  length-map operation_item p.operations,
  length-map reference_item p.references,
)

-- What a section's slice and the slice of what follows it make together.
copy_section_lem {ℓ} :
    {A : Type ℓ} {B : Type 0} (f : A → B) (xs : List A) (ys : List B) (offset remaining : ℕ)
    → (let (got, o, r) = copy_section xs offset remaining in map f got ++ take r (drop o ys))
      ≡ take remaining (drop offset (map f xs ++ ys))
unfolding copy_section
copy_section_lem f xs ys offset remaining =
    let front = drop-append offset (map f xs) ys in
    let whole =
      take-append remaining (drop offset (map f xs)) (drop (offset - length (map f xs)) ys) in
    let n = length-map f xs in
    let m = length-drop offset (map f xs) in
    elim (Bool-cases (remaining == 0)) [
      | inl empty ↦ (let z : remaining ≡ 0 = ground arith in rw (z) refl)
      | inr full ↦ elim (Bool-cases (leb (length xs) offset)) [
        | inl past ↦
            (let gone = drop_past offset (map f xs) (ground (arith, n)) in
              rw (full, past, copy_section, front, gone, n) refl)
        | inr inside ↦ elim (Bool-cases (ltb (length xs) (offset + remaining))) [
          | inl over ↦
              (let all =
                  take_all (length xs - offset) (drop offset xs)
                    (ground (arith, length-drop offset xs)) in
                let start : offset - length xs ≡ 0 = ground arith in
                let kept = take_all remaining (drop offset (map f xs)) (ground (arith, m, n)) in
                rw
                  (
                    full,
                    inside,
                    over,
                    copy_section,
                    front,
                    whole,
                    all,
                    kept,
                    map-drop f offset xs,
                    m,
                    n,
                    start,
                  )
                  refl)
          | inr within ↦
              (let start : offset - length xs ≡ 0 = ground arith in
                let size : offset + remaining - offset ≡ remaining = omega arith in
                let left : remaining - remaining ≡ remaining - (length xs - offset) =
                  ground arith in
                rw
                  (
                    full,
                    inside,
                    within,
                    copy_section,
                    front,
                    whole,
                    size,
                    m,
                    n,
                    start,
                    left,
                    map-take f remaining (drop offset xs),
                    map-drop f offset xs,
                  )
                  refl)
        ]
      ]
    ]

-- A page holds the items from the offset on, in order and across the three sections, as many as
-- asked for or up to the last.
pub page_projection-items :
    (p : Projection) (offset limit : ℕ) (next : Bytes)
    → response_items (page_projection p offset limit next)
      ≡ take limit (drop offset (projection_items p))
unfolding page_projection
page_projection-items p offset limit next =
    let after_skills = map operation_item p.operations ++ map reference_item p.references in
    let (skills, o1, r1) = copy_section p.skills offset limit in
    let (operations, o2, r2) = copy_section p.operations o1 r1 in
    let (references, o3, r3) = copy_section p.references o2 r2 in
    let a = copy_section_lem skill_item p.skills after_skills offset limit in
    let b = copy_section_lem operation_item p.operations (map reference_item p.references) o1 r1 in
    let c = copy_section_lem reference_item p.references [] o2 r2 in
    let nothing : List Item = [] in
    let empty : take r3 (drop o3 nothing) ≡ [] = ap (take r3) (drop-nil o3) ∙ take-nil r3 in
    let last : map reference_item references ≡ take r2 (drop o2 (map reference_item p.references)) =
      sym (append-nil (map reference_item references))
      ∙ ap (λ z. map reference_item references ++ z) (sym empty)
      ∙ c
      ∙ ap (λ z. take r2 (drop o2 z)) (append-nil (map reference_item p.references)) in
    ap (λ z. map skill_item skills ++ (map operation_item operations ++ z)) last
    ∙ ap (λ z. map skill_item skills ++ z) b
    ∙ a
