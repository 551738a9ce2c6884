-- ===== src/Dpipersist/Options.antt =====
-- dpipersist.c, the command line: what the flags decide.
use hwdb_opendpi.Prelude.{
  ℕ, ◌%◌, ◌^◌, ◌≡◌, refl, ◌∙◌, ap, inl, inr, true, false, some, List, [], ◌∷◌, if◌then◌else◌, done,
  exits, Bool-cases, ◌++◌,
}
use hwdb_opendpi.Stable.{str_eq}
use hwdb_opendpi.Stable.Lookup.{eq_of_str_eq}
use hwdb_opendpi.Dpipersist.{Text, Args, set_flag, read_args}

-- The arguments for pairs of a flag and its value.
abbrev pub flatten : List (Text × Text) → List Text
flatten [] = []
flatten ((flag, value) ∷ rest) = flag ∷ value ∷ flatten rest

-- What the last pair with the flag gives, or `d`.
abbrev pub last_value {ℓ} : {A : Type ℓ} → (Text → A) → Text → List (Text × Text) → A → A
last_value f flag [] d = d
last_value f flag ((g, value) ∷ rest) d =
    last_value f flag rest (if str_eq g flag then f value else d)

abbrev pub flag : ℕ → Text
flag c = b'-' ∷ c ∷ []

-- The arguments that the pairs give.
abbrev pub args_of : (Text → ℕ) → List (Text × Text) → Args → Args
args_of atoi pairs args = record {
  host = last_value (λ t. t) (flag b'h') pairs args.host;
  port = last_value (λ t. atoi t % 2 ^ 16) (flag b'p') pairs args.port;
  directory = last_value some (flag b'd') pairs args.directory;
  next_rotation = last_value atoi (flag b'r') pairs args.next_rotation;
}

-- A flag is not another one.
other_flag :
    (g : Text) (c d : ℕ)
    → str_eq (flag c) (flag d) ≡ false
    → str_eq g (flag c) ≡ true
    → str_eq g (flag d) ≡ false
other_flag g c d ne e = ap (λ x. str_eq x (flag d)) (eq_of_str_eq g (flag c) e) ∙ ne

set_flag-args_of :
    (atoi : Text → ℕ) (g value : Text) (args : Args)
    → set_flag atoi g value args ≡ args_of atoi ((g, value) ∷ []) args
unfolding set_flag str_eq
set_flag-args_of atoi g value args = elim (Bool-cases (str_eq g (flag b'h'))) [
  | inl e ↦
      rw
        (
          e,
          other_flag g b'h' b'p' refl e,
          other_flag g b'h' b'd' refl e,
          other_flag g b'h' b'r' refl e,
        )
        refl
  | inr h ↦ elim (Bool-cases (str_eq g (flag b'p'))) [
    | inl e ↦ rw (h, e, other_flag g b'p' b'd' refl e, other_flag g b'p' b'r' refl e) refl
    | inr p ↦ elim (Bool-cases (str_eq g (flag b'd'))) [
      | inl e ↦ rw (h, p, e, other_flag g b'd' b'r' refl e) refl
      | inr d ↦ elim (Bool-cases (str_eq g (flag b'r'))) [
        | inl e ↦ rw (h, p, d, e) refl
        | inr e ↦ rw (h, p, d, e) refl
      ]
    ]
  ]
]

-- Pairs of flags and values are read, each field from the last pair with its flag, and a flag that
-- is unknown is skipped with its value.
read_args-flatten :
    (atoi : Text → ℕ) (pairs : List (Text × Text)) (args : Args)
    → read_args atoi (flatten pairs) args ≡ done (args_of atoi pairs args)
unfolding read_args
read_args-flatten atoi [] args = refl
read_args-flatten atoi ((g, value) ∷ rest) args =
    read_args-flatten atoi rest (set_flag atoi g value args)
    ∙ rw (set_flag-args_of atoi g value args) refl

-- A last flag without a value ends the program, whatever stands before it.
read_args-odd :
    (atoi : Text → ℕ) (pairs : List (Text × Text)) (g : Text) (args : Args)
    → read_args atoi (flatten pairs ++ (g ∷ [])) args ≡ exits 1
unfolding read_args
read_args-odd atoi [] g args = refl
read_args-odd atoi ((f, value) ∷ rest) g args =
    read_args-odd atoi rest g (set_flag atoi f value args)
