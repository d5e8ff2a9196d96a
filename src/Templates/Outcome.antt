-- ===== src/Templates/Outcome.antt =====
-- What the registry of core/ir/template_versions.py raises: a `TemplateVersionError` for each of its
-- messages, and the exceptions of Python that it does not catch.
use veri_doc.Prelude.{ℕ, String, Bool, true, false, Option}

pub data TemplateError : Type 0 where
  -- template[index].key must be a non-empty string
  missing_string : ℕ → String → TemplateError
  -- must use major.minor.patch numeric versioning
  bad_version : Option ℕ → TemplateError
  bad_status bad_effective bad_from bad_until bad_window : ℕ → TemplateError
  -- the path of a text that is no timestamp, or of no moment
  bad_timestamp : String → TemplateError
  duplicate_version : String → String → TemplateError
  unregistered no_active_version : String → TemplateError
  unregistered_version inactive_version not_effective : String → String → TemplateError
  -- a TypeError or a KeyError
  python_error : TemplateError

pub data Checked {ℓ} (A : Type ℓ) : Type ℓ where
  passed : A → Checked A
  refused : TemplateError → Checked A

module _ {ℓ κ} {A : Type ℓ} {B : Type κ} where
  infixl 5 ◌>>=◌ ◌>>◌
  abbrev pub ◌>>=◌ : Checked A → (A → Checked B) → Checked B
  passed a >>= f = f a
  refused e >>= f = refused e

  abbrev pub ◌>>◌ : Checked A → Checked B → Checked B
  m >> n = m >>= λ _. n

-- if not b: raise e
abbrev pub require : Bool → TemplateError → Checked (Unit {0})
require true e = passed tt
require false e = refused e

abbrev pub or_refuse {ℓ} : {A : Type ℓ} → Option A → TemplateError → Checked A
or_refuse Option.none e = refused e
or_refuse (Option.some a) e = passed a
