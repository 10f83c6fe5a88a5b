-- ===== src/Version/Order.antt =====
-- The order of versions.
use brane.Prelude.{◌≡◌, ◌↔◌, ◌≢◌, true, false, some, none, Ordering, arith, if◌then◌else◌}
use brane.Version.{
  Version, SemVersion, eq, cmp, is_latest, eq_semver, partial_cmp_semver, from_semver,
}

abbrev pub swap : Ordering → Ordering
swap Ordering.lt = Ordering.gt
swap Ordering.eq = Ordering.eq
swap Ordering.gt = Ordering.lt

pub cmp-eq_iff : (a b : Version) → (cmp a b ≡ Ordering.eq) ↔ (a ≡ b)
unfolding cmp
cmp-eq_iff a b = ground arith

pub eq_iff : (a b : Version) → (eq a b ≡ true) ↔ (a ≡ b)
unfolding eq
eq_iff a b = ground arith

pub cmp-swap : (a b : Version) → cmp b a ≡ swap (cmp a b)
unfolding cmp
cmp-swap a b = ground arith

pub cmp_trans :
    (a b c : Version) → cmp a b ≢ Ordering.gt → cmp b c ≢ Ordering.gt → cmp a c ≢ Ordering.gt
unfolding cmp
cmp_trans a b c h k = ground arith

-- `Ord` and `PartialEq` of versions agree: `cmp` answers `Equal` exactly where `eq` holds, and
-- exchanging the arguments reverses the answer.
pub cmp_consistent :
    (a b : Version) → ((cmp a b ≡ Ordering.eq) ↔ (eq a b ≡ true)) × (cmp b a ≡ swap (cmp a b))
cmp_consistent a b = (
  (λ h. (eq_iff a b).1 ((cmp-eq_iff a b).0 h), λ h. (cmp-eq_iff a b).1 ((eq_iff a b).0 h)),
  cmp-swap a b,
)

-- Against a `semver::Version`, 'latest' compares with nothing and equals nothing; a resolved
-- version compares, and is equal, as with the version that `from` makes of it.
pub semver_agrees :
    (a : Version) (b : SemVersion)
    → (partial_cmp_semver a b ≡ (if is_latest a then none else some (cmp a (from_semver b))))
      × (eq_semver a b ≡ (if is_latest a then false else eq a (from_semver b)))
unfolding is_latest partial_cmp_semver eq_semver cmp eq from_semver
semver_agrees a b = (ground arith, ground arith)
