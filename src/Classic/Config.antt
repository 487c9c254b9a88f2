-- ===== src/Classic/Config.antt =====
-- Settings that are read give a configuration that the judge can use.
use brunost_judge.Prelude.{
  ℕ, ◌≤◌, String, ◌≡◌, refl, subst, ◌⊎◌, inl, inr, Bool, true, false, Bool-cases, Option, none,
  some, List, [], ◌∷◌, contains, ◌==◌, arith,
}
use brunost_judge.Prelude.Int.{ℤ}
use brunost_judge.Classic.Settings.{
  ClassicConfig, TextMethods, Settings, uses_reference, at_least, positive_int, plain_name,
  language_name, known_names, normalize_language, settings_ok, config_of, only_if, ◌>>=◌, value_or,
  reference_path, nonempty_value, answer_source_of, default_time_limit_ms, default_memory_limit_mb,
  default_output_limit_bytes,
}

abbrev pub languages : List String
languages = "python" ∷ "c" ∷ "cpp" ∷ "rust" ∷ []

abbrev pub kinds : List String
kinds = "coding" ∷ "icpc" ∷ "interactive" ∷ []

-- a kind and languages that the judge knows, limits that are positive, and a path of the reference
-- solution if that gives the answers
pub record IsConfig (c : ClassicConfig) : Type 0 where
  pub kind : contains c.kind kinds ≡ true
  pub language : contains c.language languages ≡ true
  pub reference_language : contains c.reference_language languages ≡ true
  pub time : 1 ≤ c.time_limit_ms
  pub memory : 1 ≤ c.memory_limit_mb
  pub output : 1 ≤ c.output_limit_bytes
  pub reference : (uses_reference c ≡ false) ⊎ ((p : String) × (c.reference_entrypoint ≡ some p))

plain_name-known :
    (n : String) → contains n known_names ≡ true → contains (plain_name n) languages ≡ true
unfolding contains
plain_name-known n h = elim (Bool-cases (n == "py")) [
  | inl e ↦ rw e refl
  | inr a ↦ elim (Bool-cases (n == "c++")) [
    | inl e ↦ rw (a, e) refl
    | inr b ↦ elim (Bool-cases (n == "rs")) [
      | inl e ↦ rw (a, b, e) refl
      | inr c ↦ rw (a, b, c) (ground (arith, a, b, c, h))
    ]
  ]
]

name_kept :
    (name l : String)
    → only_if (contains name known_names) (plain_name name) ≡ some l
    → contains l languages ≡ true
name_kept name l h = elim (Bool-cases (contains name known_names)) [
  | inl known ↦
      let same : plain_name name ≡ l = ground (arith, known, h) in
      subst (λ x. contains x languages ≡ true) same (plain_name-known name known)
  | inr unknown ↦ absurd (ground (arith, unknown, h))
]

normalize_language-known :
    (t : TextMethods) (v l : String) → normalize_language t v ≡ some l → contains l languages ≡ true
unfolding normalize_language
normalize_language-known t v l h = name_kept (language_name t v) l h

at_least-positive : (o : Option ℤ) (n : ℕ) → at_least o ≡ some n → 1 ≤ n
at_least-positive none n h = absurd (cc)
at_least-positive (some i) n h = ground (arith, h)

positive_int-positive :
    (t : TextMethods) (o : Option String) (d n : ℕ) → positive_int t o d ≡ some n → 1 ≤ n
unfolding positive_int
positive_int-positive t none d n h = ground (arith, h)
positive_int-positive t (some v) d n h = at_least-positive (t.parse_int v) n h

reference_path-given :
    (o : Option String) (source : String)
    → ((source == "reference") ≡ false) ⊎ ((p : String) × (reference_path o source ≡ some p))
reference_path-given none source = elim (Bool-cases (source == "reference")) [
  | inl asked ↦ inr ("private/reference.py", rw asked refl)
  | inr other ↦ inl other
]
reference_path-given (some v) source = inr (v, refl)

settings_ok-kind :
    (t : TextMethods) (values : Settings)
    → settings_ok t values ≡ true
    → contains (t.lower (value_or "kind" "" values)) kinds ≡ true
unfolding settings_ok
settings_ok-kind t values h = ground (arith, h)

>>=-eq-some {ℓ κ} :
    {A : Type ℓ} {B : Type κ} (o : Option A) (f : A → Option B) (b : B)
    → (o >>= f) ≡ some b
    → (a : A) × (o ≡ some a) × (f a ≡ some b)
>>=-eq-some none f b h = absurd (cc)
>>=-eq-some (some a) f b h = (a, refl, h)

only_if-eq-some {ℓ} :
    {A : Type ℓ} (b : Bool) (a c : A) → only_if b a ≡ some c → (b ≡ true) × (a ≡ c)
only_if-eq-some true a c h = (refl, cc)
only_if-eq-some false a c h = absurd (cc)

-- Settings that are read without an error give a kind and languages that the judge knows, positive
-- limits, and, if the answers come from a reference solution, the path of one.
pub config_of-IsConfig :
    (t : TextMethods) (values : Settings) (c : ClassicConfig)
    → config_of t values ≡ some c
    → IsConfig c
unfolding config_of
config_of-IsConfig t values c h =
    let (language, l, h1) =
      >>=-eq-some (normalize_language t (value_or "language" "" values)) _ c h in
    let (reference, r, h2) =
      >>=-eq-some (normalize_language t (value_or "reference_language" language values)) _ c h1 in
    let (time, a, h3) =
      >>=-eq-some (positive_int t (values "time_limit_ms") default_time_limit_ms) _ c h2 in
    let (memory, b, h4) =
      >>=-eq-some (positive_int t (values "memory_limit_mb") default_memory_limit_mb) _ c h3 in
    let (output, d, h5) =
      >>=-eq-some (positive_int t (values "output_limit_bytes") default_output_limit_bytes) _ c
        h4 in
    let (fine, same) = only_if-eq-some (settings_ok t values) _ c h5 in
    subst IsConfig same (record {
      kind = settings_ok-kind t values fine;
      language = normalize_language-known t _ language l;
      reference_language = normalize_language-known t _ reference r;
      time = positive_int-positive t (values "time_limit_ms") default_time_limit_ms time a;
      memory = positive_int-positive t (values "memory_limit_mb") default_memory_limit_mb memory b;
      output =
          positive_int-positive t (values "output_limit_bytes") default_output_limit_bytes output d;
      reference =
          reference_path-given (nonempty_value (values "reference_entrypoint"))
            (answer_source_of t values);
    })
