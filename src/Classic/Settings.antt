-- ===== src/Classic/Settings.antt =====
-- The settings of a classic task, `_config` of src/grader/classic.py, once judge.yaml is read. What
-- Python's `lower`, `replace` and `int` do with a text is a parameter, and an error is `none`.
use brunost_judge.Prelude.{
  ℕ, ◌^◌, String, Bool, ◌&&◌, Option, none, some, List, [], ◌∷◌, contains, leb, ◌==◌, if◌then◌else◌,
}
use brunost_judge.Prelude.Int.{ℤ, pos, pos_part}

abbrev pub default_time_limit_ms : ℕ
default_time_limit_ms = 2000

abbrev pub default_memory_limit_mb : ℕ
default_memory_limit_mb = 512

abbrev pub default_output_limit_bytes : ℕ
default_output_limit_bytes = 2 ^ 20

-- `ClassicConfig`
pub record ClassicConfig : Type 0 where
  pub kind : String
  pub language : String
  pub entrypoint : Option String
  pub interactor : String
  pub time_limit_ms : ℕ
  pub memory_limit_mb : ℕ
  pub output_limit_bytes : ℕ
  pub answer_source : String
  pub scoring_mode : String
  pub reference_language : String
  pub reference_entrypoint : Option String

-- the answers come from the reference solution
abbrev pub uses_reference : ClassicConfig → Bool
uses_reference cfg = cfg.answer_source == "reference"

-- only a full solution scores
abbrev pub is_all_or_nothing : ClassicConfig → Bool
is_all_or_nothing cfg = cfg.scoring_mode == "all_or_nothing"

pub record TextMethods : Type 0 where
  pub lower : String → String
  pub replace : String → String → String → String
  pub parse_int : String → Option ℤ

-- `values.get(key)` of the settings
abbrev pub Settings : Type 0
Settings = String → Option String

abbrev pub value_or : String → String → Settings → String
value_or key default values = elim (values key) [ none ↦ default | some v ↦ v ]

abbrev pub at_least : Option ℤ → Option ℕ
at_least none = none
at_least (some i) = if leb 1 (pos_part i) then some (pos_part i) else none

-- `_positive_int`
unfoldable pub positive_int : TextMethods → Option String → ℕ → Option ℕ
positive_int t none default = at_least (some (pos default))
positive_int t (some v) default = at_least (t.parse_int v)

abbrev pub plain_name : String → String
plain_name l =
    if l == "py"
    then "python"
    else (if l == "c++" then "cpp" else (if l == "rs" then "rust" else l))

abbrev pub known_names : List String
known_names = "python" ∷ "py" ∷ "cpp" ∷ "c++" ∷ "c" ∷ "rust" ∷ "rs" ∷ []

-- the name before the test
abbrev pub language_name : TextMethods → String → String
language_name t v =
    let low = t.lower v in
    if contains low ("gnu++17" ∷ "c++17" ∷ "g++" ∷ []) then "cpp" else t.replace low "gnu++" "cpp"

-- `_normalize_language`
unfoldable pub normalize_language : TextMethods → String → Option String
unfolding contains
normalize_language t v =
    let name = language_name t v in
    if contains name known_names then some (plain_name name) else none

-- `values.get(key) or None`
abbrev pub nonempty_value : Option String → Option String
nonempty_value none = none
nonempty_value (some v) = if v == "" then none else some v

abbrev pub reference_path : Option String → String → Option String
reference_path none source = if source == "reference" then some "private/reference.py" else none
reference_path (some v) source = some v

-- the tests of the other settings
unfoldable pub settings_ok : TextMethods → Settings → Bool
unfolding contains
settings_ok t values =
    contains (t.lower (value_or "kind" "" values)) ("coding" ∷ "icpc" ∷ "interactive" ∷ [])
    && value_or "version" "" values == "1"
    && t.lower (value_or "runner" "classic" values) == "classic"
    && contains (t.lower (value_or "answer_source" "answer_key" values))
        ("answer_key" ∷ "reference" ∷ [])
    && contains (t.lower (value_or "scoring_mode" "all_or_nothing" values))
        ("all_or_nothing" ∷ "percentage" ∷ [])

abbrev pub answer_source_of : TextMethods → Settings → String
answer_source_of t values = t.lower (value_or "answer_source" "answer_key" values)

-- the record, from the entries that are read
abbrev pub config_with : TextMethods → Settings → String → String → ℕ → ℕ → ℕ → ClassicConfig
config_with t values language reference_language time memory output = record {
  kind = t.lower (value_or "kind" "" values);
  language = language;
  entrypoint = nonempty_value (values "entrypoint");
  interactor = value_or "interactor" "interactor.py" values;
  time_limit_ms = time;
  memory_limit_mb = memory;
  output_limit_bytes = output;
  answer_source = answer_source_of t values;
  scoring_mode = t.lower (value_or "scoring_mode" "all_or_nothing" values);
  reference_language = reference_language;
  reference_entrypoint =
      reference_path (nonempty_value (values "reference_entrypoint")) (answer_source_of t values);
}

abbrev pub only_if {ℓ} : {A : Type ℓ} → Bool → A → Option A
only_if fine a = if fine then some a else none

infixl 45 ◌>>=◌
abbrev pub ◌>>=◌ {ℓ κ} : {A : Type ℓ} {B : Type κ} → Option A → (A → Option B) → Option B
none >>= f = none
some a >>= f = f a

-- `_config`
unfoldable pub config_of : TextMethods → Settings → Option ClassicConfig
unfolding settings_ok normalize_language positive_int
config_of t values = do
  language ← normalize_language t (value_or "language" "" values)
  reference_language ← normalize_language t (value_or "reference_language" language values)
  time ← positive_int t (values "time_limit_ms") default_time_limit_ms
  memory ← positive_int t (values "memory_limit_mb") default_memory_limit_mb
  output ← positive_int t (values "output_limit_bytes") default_output_limit_bytes
  only_if (settings_ok t values)
      (config_with t values language reference_language time memory output)
