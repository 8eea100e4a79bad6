-- ===== src/Capability/Loader/Loading.antt =====
-- A transaction under way in internal/capability/loader.go: what is reserved for it and what is staged.
use mathlib.Core.Path.{subst}
use tappet.Capability.PackageFiles.{ArtifactSource}
use tappet.Capability.PackageRecords.{LoaderCodec}
use tappet.Capability.Loader.{stage_sources}
use tappet.Capability.Snapshot.{
  SnapshotStore, StagingTransaction, begin, reserve, stage_reserved, package_artifact_max,
}
use tappet.Capability.Snapshot.Accounting.{IsAccounted, reserve-eq-ok, reserve-IsAccounted}
use tappet.Capability.Snapshot.Contents.{IsStaged, stage_reserved-eq-ok, stage_reserved-IsStaged}
use tappet.Capability.Snapshot.Objects.{staged_size}
use tappet.Prelude.{
  ℕ, ◌+◌, ◌^◌, ◌≤◌, ◌<◌, ◌≡◌, refl, sym, ap, ◌∙◌, false, Option, none, some, List, [], ◌∷◌, Bytes,
  lookup, bytes_key, total, ok, arith, Result-cases, Bool-cases, inl, inr,
}

module _ (sha256 : Bytes → Bytes) where
  -- A transaction that is under way, with `declared` bytes reserved and not yet staged, over a store with `base`
  -- bytes pending for others.
  pub record IsLoading (base declared : ℕ) (t : StagingTransaction) (s : SnapshotStore)
      : Type 0 where
    pub opened : t.closed ≡ false
    pub whole : t.package_size ≤ package_artifact_max
    pub staged : IsStaged sha256 t.artifacts
    pub room : total staged_size t.artifacts + declared ≤ t.reserved
    pub accounts : IsAccounted (base + t.reserved) s

  pub begin-IsLoading :
      (base : ℕ) (s : SnapshotStore) → IsAccounted base s → IsLoading base 0 begin s
  unfolding begin
  begin-IsLoading base s a = record {
    opened = refl;
    whole = omega arith;
    staged = record { unique = tt; at = λ name b h. absurd (unfold lookup in cc) };
    room = omega arith;
    accounts = subst (λ n. IsAccounted n s) (omega arith) a;
  }

  pub weaken-IsLoading :
      (base declared : ℕ) (t : StagingTransaction) (s : SnapshotStore)
      → IsLoading base declared t s
      → IsLoading base 0 t s
  weaken-IsLoading base declared t s l = record {
    opened = l.opened;
    whole = l.whole;
    staged = l.staged;
    room = omega (arith, l.room);
    accounts = l.accounts;
  }

  pub reserve-IsLoading :
      (base size : ℕ) (t : StagingTransaction) (s : SnapshotStore) (t' : StagingTransaction)
      (s' : SnapshotStore)
      → size < 2 ^ 62
      → IsLoading base 0 t s
      → reserve size t s ≡ ok (t', s')
      → IsLoading base size t' s'
  reserve-IsLoading base size t s t' s' small l e =
      let (et, _, _, _, _) = reserve-eq-ok size t s t' s' e in
      let (accounts, reserved, whole) =
        reserve-IsAccounted size (base + t.reserved) t s t' s' small l.whole l.accounts e in
      record {
        opened = ap (λ (x : StagingTransaction). x.closed) et ∙ l.opened;
        whole = whole;
        staged = subst (λ (x : StagingTransaction). IsStaged sha256 x.artifacts) (sym et) l.staged;
        room =
            subst (λ (x : StagingTransaction). total staged_size x.artifacts + size ≤ x.reserved)
              (sym et) (omega (arith, l.room));
        accounts = subst (λ n. IsAccounted n s') (omega (arith, reserved)) accounts;
      }

  pub stage-IsLoading :
      (base declared more maximum : ℕ) (name : Bytes) (reader : Option Bytes)
      (t : StagingTransaction) (s : SnapshotStore) (t' : StagingTransaction)
      → IsLoading base (declared + more) t s
      → stage_reserved sha256 name reader declared maximum t ≡ ok t'
      → IsLoading base more t' s
  stage-IsLoading base declared more maximum name none t s t' l e =
      absurd (unfold stage_reserved in ground (arith, e))
  stage-IsLoading base declared more maximum name (some bytes) t s t' l e =
      let (et, _, _, _) = stage_reserved-eq-ok sha256 name bytes declared maximum t t' e in
      let (staged, grown, _, _, _, _) =
        stage_reserved-IsStaged sha256 name bytes declared maximum t t' l.staged e in
      let reserved : t'.reserved ≡ t.reserved = ap (λ (x : StagingTransaction). x.reserved) et in
      let size : t'.package_size ≡ t.package_size =
        ap (λ (x : StagingTransaction). x.package_size) et in
      record {
        opened = ap (λ (x : StagingTransaction). x.closed) et ∙ l.opened;
        whole = omega (arith, size, l.whole);
        staged = staged;
        room = omega (arith, grown, reserved, l.room);
        accounts = subst (λ n. IsAccounted n s) (omega (arith, reserved)) l.accounts;
      }

-- The declared sizes of the sources.
abbrev pub sizes : List ArtifactSource → ℕ
sizes [] = 0
sizes (source ∷ sources) = source.file.size + sizes sources

module _ (codec : LoaderCodec) where
  open codec use {sha256}

  pub stage_sources-IsLoading :
      (base : ℕ) (package_name : Bytes) (sources : List ArtifactSource) (t : StagingTransaction)
      (s : SnapshotStore)
      → IsLoading sha256 base (sizes sources) t s
      → IsLoading sha256 base 0 (stage_sources codec package_name sources t).1 s
  unfolding stage_sources
  stage_sources-IsLoading base package_name [] t s l = l
  stage_sources-IsLoading base package_name (source ∷ sources) t s l =
      elim (Result-cases (
        stage_reserved sha256 source.spec.path source.file.reader source.file.size
          source.spec.maximum t)) [
            | inl (e, failed) ↦
                rw (failed, stage_sources)
                  (weaken-IsLoading sha256 base (sizes (source ∷ sources)) t s l)
            | inr (t1, staged) ↦
                let more =
                  stage-IsLoading sha256 base source.file.size (sizes sources) source.spec.maximum
                    source.spec.path source.file.reader t s t1 l staged in
                elim (Bool-cases source.file.close_fails) [
                  | inl broken ↦
                      rw (staged, broken, stage_sources)
                        (weaken-IsLoading sha256 base (sizes sources) t1 s more)
                  | inr closed ↦
                      rw (staged, closed, stage_sources)
                        (stage_sources-IsLoading base package_name sources t1 s more)
                ]
          ]
