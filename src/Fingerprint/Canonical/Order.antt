-- ===== src/Fingerprint/Canonical/Order.antt =====
-- What Sort of record.go does to a record.
use sloff.Prelude.{
  ==-cases, ==_ne, Bool, IsSorted, List, Perm, Str, Str_Eq, ap, arith, false, if◌then◌else◌, inl,
  inr, nat_Eq, none, not, refl, some, sort, sort-IsSorted, sort-perm, sort_sorted, str_eq,
  str_eq_iff, str_geb_trans, str_ltb, str_ltb_asym, str_ltb_connex, subst, sym, true, ◌∙◌, ◌≡◌,
}
use sloff.Fingerprint.Defs.{FileEntry, ResolvedVersion, Record}
use sloff.Fingerprint.Canonical.{
  path_less, version_less, sort_output, sort_input, sort_record, canonical, marshal, marshal-cases,
}

-- The record with its repeated fields in order: by path, and by name, version and source.
pub record IsCanonicalOf (r c : Record) : Type 0 where
  pub same_version : c.schema_version ≡ r.schema_version
  pub same_spec : c.spec ≡ r.spec
  pub same_hash : c.input.hash ≡ r.input.hash
  pub same_files_hash : c.input.files_hash ≡ r.input.files_hash
  pub same_cmd_hash : c.input.cmd_hash ≡ r.input.cmd_hash
  pub same_versions_hash : c.input.resolved_versions_hash ≡ r.input.resolved_versions_hash
  pub same_output : c.output.hash ≡ r.output.hash
  pub files : Perm c.output.files r.output.files
  pub files_sorted : IsSorted path_less c.output.files
  pub versions : Perm c.input.resolved_versions r.input.resolved_versions
  pub versions_sorted : IsSorted version_less c.input.resolved_versions

version_less_asym : (a b : ResolvedVersion) → version_less a b ≡ true → version_less b a ≡ false
unfolding version_less
version_less_asym a b h = ground (
  arith,
  str_eq_iff a.name b.name,
  str_eq_iff b.name a.name,
  str_eq_iff a.version b.version,
  str_eq_iff b.version a.version,
  str_ltb_asym a.name b.name,
  str_ltb_asym a.version b.version,
  str_ltb_asym a.source b.source,
)

-- A comparison by a first text, and by a second test where it is the same.
abbrev by_first : Str → Str → Bool → Bool
by_first a b rest = if not (str_eq a b) then str_ltb a b else rest

by_first_trans :
    (x y z : Str) (yx zy zx : Bool)
    → (yx ≡ false → zy ≡ false → zx ≡ false)
    → by_first y x yx ≡ false
    → by_first z y zy ≡ false
    → by_first z x zx ≡ false
by_first_trans x y z yx zy zx rest h k = elim (==-cases y x) [
  | inl (a, t) ↦ elim (==-cases z y) [
    | inl (b, u) ↦
        let same : str_eq z x ≡ true = (str_eq_iff z x).1 (b ∙ a) in
        rw same (rest (rw t at h) (rw u at k))
    | inr (b, u) ↦ subst (λ w. by_first z w zx ≡ false) a (rw u (rw u at k))
  ]
  | inr (a, t) ↦ elim (==-cases z y) [
    | inl (b, u) ↦
        let other : str_eq z x ≡ false = ==_ne (λ e. a (sym b ∙ e)) in
        rw other (subst (λ w. str_ltb w x ≡ false) (sym b) (rw t at h))
    | inr (b, u) ↦
        let over : str_ltb y x ≡ false = rw t at h in
        let under : str_ltb z y ≡ false = rw u at k in
        elim (==-cases z x) [
          | inl (c, v) ↦
              absurd (a (str_ltb_connex y x over (subst (λ w. str_ltb w y ≡ false) c under)))
          | inr (c, v) ↦ rw v (str_geb_trans x y z over under)
        ]
  ]
]

version_geb_trans :
    (a b c : ResolvedVersion)
    → version_less b a ≡ false
    → version_less c b ≡ false
    → version_less c a ≡ false
unfolding version_less
version_geb_trans a b c =
    by_first_trans a.name b.name c.name _ _ _ (
      by_first_trans a.version b.version c.version _ _ _ (str_geb_trans a.source b.source c.source))

pub sort_record-IsCanonicalOf : (r : Record) → IsCanonicalOf r (sort_record r)
unfolding sort_record sort_output sort_input path_less
sort_record-IsCanonicalOf r = record {
  same_version = refl;
  same_spec = refl;
  same_hash = refl;
  same_files_hash = refl;
  same_cmd_hash = refl;
  same_versions_hash = refl;
  same_output = refl;
  files = sort-perm path_less r.output.files;
  files_sorted =
      sort-IsSorted path_less (λ a b. str_ltb_asym a.path b.path)
        (λ a b c. str_geb_trans a.path b.path c.path) r.output.files;
  versions = sort-perm version_less r.input.resolved_versions;
  versions_sorted =
      sort-IsSorted version_less version_less_asym version_geb_trans r.input.resolved_versions;
}

abbrev with_lists : Record → List FileEntry → List ResolvedVersion → Record
with_lists r fs vs = record r {
  output = record r.output { files = fs };
  input = record r.input { resolved_versions = vs };
}

sort_record_twice : (r : Record) → sort_record (sort_record r) ≡ sort_record r
unfolding sort_record sort_output sort_input
sort_record_twice r =
    let c = sort_record-IsCanonicalOf r in
    let fs = sort path_less r.output.files in
    let vs = sort version_less r.input.resolved_versions in
    ap (λ x. with_lists r x (sort version_less vs)) (sort_sorted path_less fs c.files_sorted)
    ∙ ap (with_lists r fs) (sort_sorted version_less vs c.versions_sorted)

-- What Marshal encodes of a record in canonical order is that record.
pub canonical-sort_record : (r w : Record) → marshal r ≡ some w → canonical (sort_record r) ≡ w
unfolding canonical sort_record
canonical-sort_record r w h = elim (marshal-cases r) [
  | inr (_, refused) ↦ absurd (let bad : none ≡ some w = sym refused ∙ h in cc)
  | inl (current, made) ↦
      let same : some (sort_record r) ≡ some w = sym made ∙ h in
      let eq : sort_record r ≡ w = cc in
      elim (marshal-cases (sort_record r)) [
        | inr (other, _) ↦ absurd (other current)
        | inl (_, again) ↦ rw (again, canonical) (sort_record_twice r ∙ eq)
      ]
]
