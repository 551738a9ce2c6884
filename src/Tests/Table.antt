-- ===== src/Tests/Table.antt =====
-- A table of keys that keeps the laws of `HashTable`: a list of entries with distinct keys.
use hwdb_opendpi.Prelude.{
  ◌≢◌, arith, ℕ, ◌≡◌, ◌⊎◌, refl, ap, ◌∙◌, inl, inr, Bool, true, false, Option, none, some, List, [],
  ◌∷◌, if◌then◌else◌, Bool-cases, Option-cases,
}
use hwdb_opendpi.Stable.{str_eq}
use hwdb_opendpi.Stable.Lookup.{str_eq_refl, eq_of_str_eq}
use hwdb_opendpi.Dpilogger.Flows.{
  HostLookup, host_at, no_host, dead_key, Key, HashTable, IsLawful, lookup, DistinctKeys,
}

abbrev remove_key : Key → List (Key × ℕ) → List (Key × ℕ)
remove_key k [] = []
remove_key k ((j, p) ∷ rest) =
    if str_eq j k then remove_key k rest else ((j, p) ∷ remove_key k rest)

lookup-remove_key :
    (k j : Key) (l : List (Key × ℕ))
    → lookup j (remove_key k l) ≡ (if str_eq j k then none else lookup j l)
lookup-remove_key k j [] = elim (Bool-cases (str_eq j k)) [ inl e ↦ rw e refl | inr e ↦ rw e refl ]
lookup-remove_key k j ((i, p) ∷ rest) = elim (Bool-cases (str_eq i k)) [
  | inl e ↦ elim (Bool-cases (str_eq j i)) [
    | inl t ↦
        let same : j ≡ i = eq_of_str_eq j i t in
        let other : str_eq j k ≡ true = ap (λ x. str_eq x k) same ∙ e in
        rw e (lookup-remove_key k j rest ∙ rw (other) refl)
    | inr t ↦ rw (e, t) (lookup-remove_key k j rest)
  ]
  | inr e ↦ elim (Bool-cases (str_eq j i)) [
    | inl t ↦
        let same : j ≡ i = eq_of_str_eq j i t in
        let other : str_eq j k ≡ false = ap (λ x. str_eq x k) same ∙ e in rw (e, t, other) refl
    | inr t ↦ rw (e, t) (lookup-remove_key k j rest)
  ]
]

if_none : (b : Bool) (o : Option ℕ) → o ≡ none → (if b then none else o) ≡ none
if_none true o e = refl
if_none false o e = e

DistinctKeys-if :
    (b : Bool) (x : Key × ℕ) (l m : List (Key × ℕ))
    → DistinctKeys l
    → DistinctKeys (x ∷ m)
    → DistinctKeys (if b then l else (x ∷ m))
DistinctKeys-if true x l m h k = h
DistinctKeys-if false x l m h k = k

pub DistinctKeys-remove_key :
    (k : Key) (l : List (Key × ℕ)) → DistinctKeys l → DistinctKeys (remove_key k l)
DistinctKeys-remove_key k [] h = h
DistinctKeys-remove_key k ((j, p) ∷ rest) h =
    let rest' = DistinctKeys-remove_key k rest h.1 in
    DistinctKeys-if (str_eq j k) (j, p) (remove_key k rest) (remove_key k rest) rest'
      (lookup-remove_key k j rest ∙ if_none (str_eq j k) (lookup j rest) h.0, rest')

abbrev Entries : Type 0
Entries = (l : List (Key × ℕ)) × DistinctKeys l

abbrev Found : Key → Entries → Type 0
Found k s = (lookup k s.0 ≡ none) ⊎ ((p : ℕ) × (lookup k s.0 ≡ some p))

abbrev inserted : (s : Entries) (k : Key) → ℕ → Found k s → Entries
inserted s k p (inl absent) = ((k, p) ∷ s.0, (absent, s.1))
inserted s k p (inr known) = s

inserted_absent :
    (s : Entries) (k j : Key) (p : ℕ) (c : Found k s)
    → lookup k s.0 ≡ none
    → lookup j (inserted s k p c).0 ≡ (if str_eq j k then some p else lookup j s.0)
inserted_absent s k j p (inl absent) e = refl
inserted_absent s k j p (inr (q, known)) e = cc

-- The hosts: the keys whose arrays are gone, with a bucket for each key.
abbrev search_host : List Key → Key → HostLookup
search_host [] k = no_host
search_host (j ∷ rest) k = if str_eq j k then dead_key else search_host rest k

search_host-gone :
    (j k : Key) (rest : List Key)
    → search_host rest k ≡ dead_key
    → search_host (j ∷ rest) k ≡ dead_key
search_host-gone j k rest e = ground arith

search_host-ne : (l : List Key) (k : Key) (p : ℕ) → search_host l k ≢ host_at p
search_host-ne [] k p e = cc
search_host-ne (j ∷ rest) k p e = elim (Bool-cases (str_eq j k)) [
  | inl t ↦ dead-ne p (rw t at e)
  | inr t ↦ search_host-ne rest k p (rw t at e)
]
  where
    dead-ne : (p : ℕ) → dead_key ≢ host_at p
    dead-ne p e = cc

abbrev pub table : HashTable
table = record {
  State = Entries;
  get = λ s k. lookup k s.0;
  insert = λ s k p. inserted s k p (Option-cases (lookup k s.0));
  remove = λ s k. (remove_key k s.0, DistinctKeys-remove_key k s.0 s.1);
  entries = λ s. s.0;
  Hosts = List Key;
  get_host = search_host;
  insert_host = λ s k p. k ∷ s;
}

pub table-IsLawful : IsLawful table
table-IsLawful = record {
  get-insert = λ s k j p e. inserted_absent s k j p (Option-cases (lookup k s.0)) e;
  get-remove = λ s k j. lookup-remove_key k j s.0;
  get-entries = λ s k. refl;
  distinct = λ s. s.1;
  insert-dead = λ s k p e. rw (str_eq_refl k) refl;
  stays-dead = λ s k j p e. search_host-gone k j s e;
  insert-host = λ s k j p q e. absurd (search_host-ne (k ∷ s) j q e);
}
