-- ===== src/Download/Url.antt =====
-- `source_url` of scripts/download_model.py. The code of "/" is 47, that of "." is 46.
use Prim.Native.Char.{Char, code}
use Prim.Native.String.{◌++◌ as append}
use Prim.Native.String.append
use text.Mathlib.TextEquality.{Char-path}
use llm_inference_optimizati.Base.{
  ℕ, ◌+◌, ◌≡◌, ◌≢◌, refl, sym, ap, ◌∙◌, subst, String, true, false, not, ◌||◌, ◌==◌, str_eq,
  str_eq_iff, arith, ==_iff, Bool-cases, inl, inr, ◌↔◌, if◌then◌else◌,
}
use llm_inference_optimizati.Text.{empty_text, starts_at, count_char, has_char}
use llm_inference_optimizati.Download.World.{Fault, download_error}
use llm_inference_optimizati.Download.Outside.{Outside}

pub data Url : Type 0 where
  url : String → Url
  bad_url : Fault → Url

module _ {H : Type 0} (o : Outside H) where
  -- The address of a file.
  abbrev pub link : String → String → String → String
  link repository filename revision = append "https://huggingface.co/" (
      append repository (
        append "/resolve/"
          (append (o.quote revision) (append "/" (append (o.quote filename) "?download=true")))))

  unfoldable pub source_url : String → String → String → Url
  source_url repository filename revision =
      if empty_text repository
        || ((starts_at 47 repository || starts_at 46 repository)
            || not (count_char 47 repository == 1))
      then bad_url (download_error "repository must have the form owner/name")
      else if empty_text filename || not (str_eq (o.path_name filename) filename)
      then bad_url (download_error "filename must be a single file name")
      else if empty_text revision || (has_char 47 revision || starts_at 46 revision)
      then bad_url (download_error "revision must be a branch, tag, or commit without slashes")
      else url (link repository filename revision)

abbrev pub slash : Char
slash = "/"

-- An owner that is not empty and does not begin with a dot, a slash, and a name, which may be empty.
pub record IsRepository (repository : String) : Type 0 where
  pub owner : String
  pub name : String
  pub parts : repository ≡ append owner (String.◌∷◌ slash name)
  pub owner_ne : owner ≢ ""
  pub owner_dot : starts_at 46 owner ≡ false
  pub owner_slash : has_char 47 owner ≡ false
  pub name_slash : has_char 47 name ≡ false

-- A revision without slashes that is not empty and does not begin with a dot.
abbrev pub IsRevision : String → Type 0
IsRevision revision =
    (revision ≢ "") × (has_char 47 revision ≡ false) × (starts_at 46 revision ≡ false)

none_left : (n : ℕ) (s : String) → count_char n s ≡ 0 → has_char n s ≡ false
unfolding count_char has_char
none_left n String.[] h = refl
none_left n (String.◌∷◌ c s) h = ground (arith, none_left n s)

none_counted : (n : ℕ) (s : String) → has_char n s ≡ false → count_char n s ≡ 0
unfolding count_char has_char
none_counted n String.[] h = refl
none_counted n (String.◌∷◌ c s) h = ground (arith, none_counted n s)

-- One slash splits a text in two.
record Split (s : String) : Type 0 where
  left : String
  right : String
  whole : s ≡ append left (String.◌∷◌ slash right)
  left_clear : has_char 47 left ≡ false
  right_clear : has_char 47 right ≡ false

slash_parts : (s : String) → count_char 47 s ≡ 1 → Split s
unfolding count_char has_char
slash_parts String.[] h = absurd (omega arith)
slash_parts (String.◌∷◌ c s) h = elim (Bool-cases (code c == 47)) [
  | inl here ↦ record {
    left = "";
    right = s;
    whole = ap (λ d. String.◌∷◌ d s) (Char-path c slash ((==_iff _ _).0 here)) ∙ sym (append.nil _);
    left_clear = refl;
    right_clear = none_left 47 s (ground arith);
  }
  | inr later ↦
      let rest = slash_parts s (ground arith) in
      record {
        left = String.◌∷◌ c rest.left;
        right = rest.right;
        whole = ap (λ t. String.◌∷◌ c t) rest.whole ∙ sym (append.cons c rest.left _);
        left_clear = ground (arith, rest.left_clear);
        right_clear = rest.right_clear;
      }
]

count_append : (n : ℕ) (s t : String) → count_char n (append s t) ≡ count_char n s + count_char n t
unfolding count_char
count_append n String.[] t = ap (count_char n) (append.nil t) ∙ omega arith
count_append n (String.◌∷◌ c s) t =
    ap (count_char n) (append.cons c s t) ∙ omega (arith, count_append n s t)

first_append :
    (n : ℕ) (s t : String) → empty_text s ≡ false → starts_at n (append s t) ≡ starts_at n s
first_append n String.[] t h = absurd (cc)
first_append n (String.◌∷◌ c s) t h = ap (starts_at n) (append.cons c s t)

empty_append : (s t : String) → empty_text s ≡ false → empty_text (append s t) ≡ false
empty_append String.[] t h = absurd (cc)
empty_append (String.◌∷◌ c s) t h = ap empty_text (append.cons c s t)

pub not_empty : (s : String) → s ≢ "" → empty_text s ≡ false
not_empty String.[] h = absurd (h refl)
not_empty (String.◌∷◌ c s) h = refl

is_empty : (s : String) → empty_text s ≡ false → s ≢ ""
is_empty s h e = absurd (cc (subst (λ t. empty_text t ≡ false) e h))

no_first : (n : ℕ) (s : String) → has_char n s ≡ false → starts_at n s ≡ false
unfolding has_char
no_first n String.[] h = refl
no_first n (String.◌∷◌ c s) h = ground arith

-- The test of the code on a repository.
abbrev Accepts : String → Type 0
Accepts repository =
    (empty_text repository ≡ false)
    × (starts_at 47 repository ≡ false)
    × (starts_at 46 repository ≡ false)
    × (count_char 47 repository ≡ 1)

Accepts-IsRepository : (r : String) → Accepts r → IsRepository r
unfolding has_char
Accepts-IsRepository r (filled, no_slash, no_dot, one) = repository (slash_parts r one)
  where
    owner_filled : (l n : String) → r ≡ append l (String.◌∷◌ slash n) → empty_text l ≡ false
    owner_filled String.[] n e =
        cc (subst (λ t. starts_at 47 t ≡ false) (e ∙ append.nil _) no_slash)
    owner_filled (String.◌∷◌ c l) n e = refl

    repository : Split r → IsRepository r
    repository p =
        let filled_owner = owner_filled p.left p.right p.whole in
        record {
          owner = p.left;
          name = p.right;
          parts = p.whole;
          owner_ne = is_empty p.left filled_owner;
          owner_dot =
              sym (first_append 46 p.left _ filled_owner)
              ∙ subst (λ t. starts_at 46 t ≡ false) p.whole no_dot;
          owner_slash = p.left_clear;
          name_slash = p.right_clear;
        }

IsRepository-Accepts : (r : String) → IsRepository r → Accepts r
unfolding count_char
IsRepository-Accepts r h =
    let filled = not_empty h.owner h.owner_ne in
    subst Accepts (sym h.parts) (
      empty_append h.owner _ filled,
      first_append 47 h.owner _ filled ∙ no_first 47 h.owner h.owner_slash,
      first_append 46 h.owner _ filled ∙ h.owner_dot,
      omega (
        arith,
        count_append 47 h.owner (String.◌∷◌ slash h.name),
        none_counted 47 h.owner h.owner_slash,
        none_counted 47 h.name h.name_slash,
      ),
    )

module _ {H : Type 0} (o : Outside H) where
  -- The test on a file name.
  abbrev pub IsFileName : String → Type 0
  IsFileName filename = (filename ≢ "") × (o.path_name filename ≡ filename)

  accepted :
      (repository filename revision : String) {u : String}
      → source_url o repository filename revision ≡ url u
      → (u ≡ link o repository filename revision)
        × Accepts repository
        × (empty_text filename ≡ false)
        × (str_eq (o.path_name filename) filename ≡ true)
        × (empty_text revision ≡ false)
        × (has_char 47 revision ≡ false)
        × (starts_at 46 revision ≡ false)
  unfolding source_url
  accepted repository filename revision h = ground arith

  accepts :
      (repository filename revision : String)
      → Accepts repository
      → empty_text filename ≡ false
      → str_eq (o.path_name filename) filename ≡ true
      → empty_text revision ≡ false
      → has_char 47 revision ≡ false
      → starts_at 46 revision ≡ false
      → source_url o repository filename revision ≡ url (link o repository filename revision)
  unfolding source_url
  accepts repository filename revision a b c d e f = ground arith

  -- `source_url` returns an address exactly for a repository that is an owner, a slash and a name, a
  -- file name that pathlib takes for one, and a revision; and then the address is the link that is
  -- made of the three.
  pub source_url_iff :
      (repository filename revision u : String)
      → (source_url o repository filename revision ≡ url u) ↔ (
          (u ≡ link o repository filename revision)
          × IsRepository repository
          × IsFileName filename
          × IsRevision revision)
  source_url_iff repository filename revision u = (
    (λ h.
        let (same, ok_repository, filled, named, revised, clear, dotless) =
          accepted repository filename revision h in
        (
          same,
          Accepts-IsRepository repository ok_repository,
          (is_empty filename filled, (str_eq_iff _ _).0 named),
          (is_empty revision revised, clear, dotless),
        )),
    λ h.
        accepts repository filename revision (IsRepository-Accepts repository h.1)
          (not_empty filename h.2.0) ((str_eq_iff _ _).1 h.2.1) (not_empty revision h.3.0) h.3.1
          h.3.2
        ∙ ap url (sym h.0),
  )
