-- ===== src/Download/World.antt =====
-- The files that scripts/download_model.py changes, and code over them that may raise. A raised
-- exception keeps what was written before it. Disk operations on files that are there succeed: a full
-- disk or a missing permission is left out.
use llm_inference_optimizati.Base.{ℕ, String, Bool, Option, List, ◌≡◌, ap, str_eq, if◌then◌else◌}

pub data Fault : Type 0 where
  -- `DownloadError`, with the fixed text of its message
  download_error : String → Fault
  -- Python's own exceptions
  type_error attribute_error value_error unicode_error os_error : Fault
  -- an exception of the HTTP library that is no OSError and no ValueError
  http_error : Fault

-- The content of each path, how often the clock was read and how many requests were made.
pub record World : Type 0 where
  pub files : String → Option (List ℕ)
  pub readings : ℕ
  pub requests : ℕ

pub data Outcome {ℓ} (A : Type ℓ) : Type ℓ where
  done : A → World → Outcome A
  raised : Fault → World → Outcome A

abbrev pub M {ℓ} : Type ℓ → Type ℓ
M A = World → Outcome A

abbrev pub pure {ℓ} : {A : Type ℓ} → A → M A
pure a w = done a w

abbrev pub raise {ℓ} : {A : Type ℓ} → Fault → M A
raise e w = raised e w

infixl 5 ◌>>=◌ ◌>>◌
abbrev pub ◌>>=◌ {ℓ κ} : {A : Type ℓ} {B : Type κ} → M A → (A → M B) → M B
◌>>=◌ m f w = elim (m w) [ done a w' ↦ f a w' | raised e w' ↦ raised e w' ]

abbrev pub ◌>>◌ {ℓ} : {B : Type ℓ} → M (Unit {0}) → M B → M B
m >> k = m >>= λ _. k

-- `if b: raise DownloadError(text)`
abbrev pub refuse : Bool → String → M (Unit {0})
refuse b text w = if b then raised (download_error text) w else done tt w

abbrev pub put_file :
    (String → Option (List ℕ)) → String → Option (List ℕ) → String → Option (List ℕ)
put_file files p content q = if str_eq p q then content else files q

-- `path.write_bytes(content)`, and `path.unlink()` with none
abbrev pub write : String → Option (List ℕ) → M (Unit {0})
write p content w = done tt (record w { files = put_file w.files p content })

-- What holds after a run, whether it returns or raises.
abbrev pub Ends {ℓ} :
    {A : Type ℓ} → (A → World → Type 0) → (Fault → World → Type 0) → Outcome A → Type 0
Ends P Q (done a w) = P a w
Ends P Q (raised e w) = Q e w

-- The rule for a sequence of steps.
pub Ends-bind {ℓ κ} :
    {A : Type ℓ} {B : Type κ} (P : A → World → Type 0) (P' : B → World → Type 0)
    (Q : Fault → World → Type 0) (m : M A) (f : A → M B) (w : World)
    → Ends P Q (m w)
    → ((a : A) (w' : World) → P a w' → Ends P' Q (f a w'))
    → Ends P' Q ((m >>= f) w)
Ends-bind {A} P P' Q m f w h k = from (m w) h
  where
    from :
        (o : Outcome A)
        → Ends P Q o
        → Ends P' Q (elim o [ done a w' ↦ f a w' | raised e w' ↦ raised e w' ])
    from (done a w') h = k a w' h
    from (raised e w') h = h

pub Ends-mono {ℓ} :
    {A : Type ℓ} (P P' : A → World → Type 0) (Q Q' : Fault → World → Type 0) (o : Outcome A)
    → Ends P Q o
    → ((a : A) (w : World) → P a w → P' a w)
    → ((e : Fault) (w : World) → Q e w → Q' e w)
    → Ends P' Q' o
Ends-mono P P' Q Q' (done a w) h f g = f a w h
Ends-mono P P' Q Q' (raised e w) h f g = g e w h

pub Ends-both {ℓ} :
    {A : Type ℓ} (P P' : A → World → Type 0) (Q Q' : Fault → World → Type 0) (o : Outcome A)
    → Ends P Q o
    → Ends P' Q' o
    → Ends (λ a w. P a w × P' a w) (λ e w. Q e w × Q' e w) o
Ends-both P P' Q Q' (done a w) h k = (h, k)
Ends-both P P' Q Q' (raised e w) h k = (h, k)

-- Nothing follows an exception.
pub raised-bind {ℓ κ} :
    {A : Type ℓ} {B : Type κ} (m : M A) (f : A → M B) (w v : World) (e : Fault)
    → m w ≡ raised e v
    → (m >>= f) w ≡ raised e v
raised-bind {A} {B} m f w v e h =
    ap (λ c. elim c as (λ _. Outcome B) [ done a w' ↦ f a w' | raised e w' ↦ raised e w' ]) h
