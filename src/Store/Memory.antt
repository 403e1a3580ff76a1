-- ===== src/Store/Memory.antt =====
-- A database in memory, which answers as `Gorm` asks: it shows that the laws of the database can hold,
-- and concrete runs use it.
use empire.Prelude.{
  ◌⊎◌, false, sym, ap, ◌∙◌, zero, suc, ◌<◌, length, ℕ, ◌≡◌, refl, arith, ◌==◌, Bool, true, inl, inr,
  not, ◌&&◌, List, [], ◌∷◌, if◌then◌else◌, ok, err, map,
}
use empire.Prelude.Text.{Text, codes, text_eq}
use empire.Apps.{App}
use empire.Configs.{Config}
use empire.Slugs.{Slug}
use empire.Releases.{Release}
use empire.Store.{
  delivered, Domain, Condition, text, number, equals, is_null, Gorm, Answer, record_not_found,
}
use empire.Store.Laws.{VersionLaws}

-- The tables, the latest row first.
pub record Tables : Type 0 where
  pub apps : List App
  pub configs : List Config
  pub slugs : List Slug
  pub releases : List Release
  pub domains : List Domain

abbrev first : {A : Type 0} → (A → Bool) → List A → Answer A
first p [] = err record_not_found
first p (a ∷ rows) = if p a then ok a else first p rows

abbrev matches {ℓ} :
    {A : Type ℓ} → (Text → Text → A → Bool) → (ℕ → A → Bool) → List Condition → A → Bool
matches f g [] a = true
matches f g (equals c (text t) ∷ cs) a = f c t a && matches f g cs a
matches f g (equals c (number n) ∷ cs) a = g n a && matches f g cs a
matches f g (is_null c ∷ cs) a = matches f g cs a

abbrev app_has : Text → Text → App → Bool
app_has c t a = if text_eq c (codes "id") then text_eq a.id t else text_eq a.name t

abbrev release_has : Text → Text → Release → Bool
release_has c t r = text_eq r.app.id t

abbrev domain_has : Text → Text → Domain → Bool
domain_has c t d = if text_eq c (codes "hostname") then text_eq d.hostname t else text_eq d.app_id t

abbrev keep {ℓ} : {A : Type ℓ} → (A → Bool) → List A → List A
keep p [] = []
keep p (a ∷ rows) = if p a then a ∷ keep p rows else keep p rows

abbrev pub versions_of : List Release → Text → List ℕ
versions_of [] id = []
versions_of (r ∷ rs) id =
    if text_eq r.app.id id then r.version ∷ versions_of rs id else versions_of rs id

abbrev replace_app : App → App → App
replace_app a b = if text_eq a.id b.id then a else b

-- The id of a row is a text as long as the number of the rows before it.
abbrev key : ℕ → Text
key zero = []
key (suc n) = b'1' ∷ key n

abbrev numbered : List Release → List Release
numbered [] = []
numbered (r ∷ rs) = record r { id = key (length rs) } ∷ numbered rs

-- The row with the id of a release, replaced by it.
abbrev replace_release : Release → List Release → List Release
replace_release r [] = []
replace_release r (s ∷ rs) =
    let rest = replace_release r rs in if length r.id == length rs then r ∷ rs else s ∷ rest

abbrev pub memory : Gorm
memory = record {
  Db = Tables;
  begin = λ d. d;
  commit = λ d t. (ok tt, t);
  rollback = λ d t. d;
  first_app = λ q d. first (matches app_has (λ n a. true) q.wheres) d.apps;
  find_apps = λ q d. ok (keep (matches app_has (λ n a. true) q.wheres) d.apps);
  first_config = λ q d. first (λ c. true) d.configs;
  first_release =
      λ q d. first (matches release_has (λ n r. n == r.version) q.wheres) (numbered d.releases);
  find_releases =
      λ q d. ok (keep (matches release_has (λ n r. n == r.version) q.wheres) (numbered d.releases));
  first_domain = λ q d. first (matches domain_has (λ n x. true) q.wheres) d.domains;
  find_domains = λ q d. ok (keep (matches domain_has (λ n x. true) q.wheres) d.domains);
  select_versions = λ id d. ok (delivered (versions_of d.releases id));
  lock_releases = λ id d. (ok tt, d);
  insert_app = λ a d. (ok a, record d { apps = a ∷ d.apps });
  save_app = λ a d. (ok tt, record d { apps = map (replace_app a) d.apps });
  insert_config = λ c d. (ok c, record d { configs = c ∷ d.configs });
  insert_slug = λ s d. (ok s, record d { slugs = s ∷ d.slugs });
  insert_release = λ r d.
      (ok (record r { id = key (length d.releases) }), record d { releases = r ∷ d.releases });
  save_release = λ r d. (ok tt, record d { releases = replace_release r d.releases });
  insert_domain = λ x d. (ok x, record d { domains = x ∷ d.domains });
  delete_domain = λ x d.
      (ok tt, record d { domains = keep (λ y. not (text_eq y.hostname x.hostname)) d.domains });
}

length-key : (n : ℕ) → length (key n) ≡ n
length-key zero = refl
length-key (suc n) = ground (arith, length-key n)

if_cases :
    {A : Type 0} (b : Bool) (x y : Answer A) {s : A}
    → (if b then x else y) ≡ ok s
    → ((b ≡ true) × (x ≡ ok s)) ⊎ ((b ≡ false) × (y ≡ ok s))
if_cases true x y e = inl (refl, e)
if_cases false x y e = inr (refl, e)

-- A row that is found is one of the rows, so that its id is short enough.
first-lt-length :
    (p : Release → Bool) (s : Release) (rs : List Release)
    → first p (numbered rs) ≡ ok s
    → length s.id < length rs
first-lt-length p s [] f = cc
first-lt-length p s (h ∷ rs) f =
    let row = record h { id = key (length rs) } in
    elim (if_cases (p row) (ok row) (first p (numbered rs)) f) [
      | inl (t, e) ↦
          let same : row ≡ s = cc in
          let long : length s.id ≡ length rs =
            ap (λ x. length x.id) (sym same) ∙ length-key (length rs) in
          omega arith
      | inr (n, e) ↦ let shorter = first-lt-length p s rs e in omega arith
    ]

replaced_here :
    (r h : Release) (rs : List Release) (id : Text)
    → length r.id ≡ length rs
    → r.app.id ≡ h.app.id
    → r.version ≡ h.version
    → versions_of (replace_release r (h ∷ rs)) id ≡ versions_of (h ∷ rs) id
replaced_here r h rs id n a v =
    let here : (length r.id == length rs) ≡ true = ground arith in rw (here, a, v) refl

replaced_later :
    (r h : Release) (rs : List Release) (id : Text)
    → length r.id < length rs
    → versions_of (replace_release r rs) id ≡ versions_of rs id
    → versions_of (replace_release r (h ∷ rs)) id ≡ versions_of (h ∷ rs) id
replaced_later r h rs id n e =
    let other : (length r.id == length rs) ≡ false = ground arith in rw (other, e) refl

pub versions_of-replace :
    (p : Release → Bool) (r s : Release) (rs : List Release) (id : Text)
    → first p (numbered rs) ≡ ok s
    → r.id ≡ s.id
    → r.app.id ≡ s.app.id
    → r.version ≡ s.version
    → versions_of (replace_release r rs) id ≡ versions_of rs id
versions_of-replace p r s [] id f i a v = refl
versions_of-replace p r s (h ∷ rs) id f i a v =
    let row = record h { id = key (length rs) } in
    elim (if_cases (p row) (ok row) (first p (numbered rs)) f) [
      | inl (t, e) ↦
          let same : row ≡ s = cc in
          replaced_here r h rs id
            (ap length i ∙ ap (λ x. length x.id) (sym same) ∙ length-key (length rs))
            (a ∙ ap (λ x. x.app.id) (sym same)) (v ∙ ap (λ x. x.version) (sym same))
      | inr (n, e) ↦
          let shorter = first-lt-length p s rs e in
          let short : length r.id < length rs = rw i shorter in
          replaced_later r h rs id short (versions_of-replace p r s rs id e i a v)
    ]

unfoldable pub memory_laws : VersionLaws memory
memory_laws = record {
  versions = λ d id. versions_of d.releases id;
  begin_versions = λ d id. refl;
  rollback_versions = λ d t id. refl;
  commit_versions = λ d t id q. refl;
  abort_versions = λ d t id x q. ground (arith, q);
  select_versions_broken = λ r d made q. ground (arith, q);
  select_versions_descending = λ d id vs h q. ground (arith, q);
  lock_versions = λ a d id. refl;
  insert_app_versions = λ a d id. refl;
  save_app_versions = λ a d id. refl;
  insert_config_versions = λ c d id. refl;
  insert_slug_versions = λ s d id. refl;
  insert_release_versions = λ r d id made q. refl;
  insert_release_made = λ r d made q. ground (arith, q);
  insert_release_failed = λ r d id x q. ground (arith, q);
  save_release_versions = λ q s r d id f i a v.
      versions_of-replace (matches release_has (λ n r. n == r.version) q.wheres) r s d.releases id f
        i a v;
  insert_domain_versions = λ x d id. refl;
  delete_domain_versions = λ x d id. refl;
}
