-- ===== src/Dpilogger/Flows/Counting.antt =====
-- dpilogger.c: the flows after a packet of a known flow, and after one of a new flow.
use hwdb_opendpi.Prelude.{
  ℕ, ◌+◌, ◌-◌, ◌<◌, ◌≡◌, ◌≢◌, ◌⊎◌, refl, sym, ap, ◌∙◌, inl, inr, false, Option, none, some, arith,
  ◌==◌, if◌then◌else◌, Bool-cases, ==_of_eq, ==_of_ne,
}
use hwdb_opendpi.Stable.{str_eq}
use hwdb_opendpi.Stable.Lookup.{str_eq_refl, eq_of_str_eq}
use hwdb_opendpi.Dpilogger.Flows.{Key, HashTable, IsLawful, OsdpiFlow, write, Logger}
use hwdb_opendpi.Dpilogger.Flows.Aging.{pointed, flow_of, IsLogger}

some_inj : (x y : ℕ) → some x ≡ some y → x ≡ y
some_inj x y e = cc

-- A write is not seen through other pointers.
pointed-write :
    (heap : ℕ → Option OsdpiFlow) (p : ℕ) (x : Option OsdpiFlow) (o : Option ℕ)
    → ((q : ℕ) → o ≡ some q → q ≢ p)
    → pointed (write heap p x) o ≡ pointed heap o
pointed-write heap p x none h = refl
pointed-write heap p x (some q) h = rw (==_of_ne q p (h q refl)) refl

module _ (T : HashTable) (lawful : IsLawful T) where
  -- After a packet with the key `key`: its flow is `f`, at the address that is returned, and the
  -- others are as before.
  pub record Counted (s s' : Logger T) (key : Key) (f : OsdpiFlow) (p : ℕ) : Type 0 where
    pub valid : IsLogger T s'
    pub flow : (j : Key) → flow_of T s' j ≡ (if str_eq j key then some f else flow_of T s j)
    pub found : T.get s'.flows key ≡ some p

  module _ (s : Logger T) (v : IsLogger T s) (key : Key) (p : ℕ) (f : OsdpiFlow)
      (known : T.get s.flows key ≡ some p) where
    abbrev pub stored : Logger T
    stored = record s { flow_at = write s.flow_at p (some f) }

    one_key : (j : Key) (q : ℕ) → str_eq j key ≡ false → T.get s.flows j ≡ some q → some q ≢ some p
    one_key j q t e same =
        let other : j ≡ key = v.apart j key p (e ∙ same) known in cc (other, t, str_eq_refl key)

    pub stored-Counted : Counted s stored key f p
    stored-Counted = record {
      valid = record {
        live = λ k q e. elim (Bool-cases (q == p)) [
          | inl t ↦ (f, rw t refl)
          | inr t ↦ let (g, at) = v.live k q e in (g, rw t at)
        ];
        below = v.below;
        apart = v.apart;
      };
      flow = λ j. elim (Bool-cases (str_eq j key)) [
        | inl t ↦
            let same : j ≡ key = eq_of_str_eq j key t in
            rw (t, same, known, pointed, ==_of_eq p p refl) refl
        | inr t ↦ rw t (
            pointed-write s.flow_at p (some f) (T.get s.flows j)
              (λ q e same. one_key j q t e (ap some same)))
      ];
      found = known;
    }

  module _ (s : Logger T) (v : IsLogger T s) (key : Key) (f : OsdpiFlow)
      (absent : T.get s.flows key ≡ none) where
    abbrev pub entered : Logger T
    entered = record s {
      brk = s.brk + 1 + 1;
      room = s.room - 1 - 1;
      flow_at = write s.flow_at s.brk (some f);
      flows = T.insert s.flows key s.brk;
    }

    -- A pointer of the new table is the new one, or an old one under its old key.
    get-entered :
        (j : Key) (q : ℕ)
        → T.get entered.flows j ≡ some q
        → ((j ≡ key) × (q ≡ s.brk)) ⊎ ((T.get s.flows j ≡ some q) × (q < s.brk))
    get-entered j q e = elim (Bool-cases (str_eq j key)) [
      | inl t ↦ inl (
        eq_of_str_eq j key t,
        some_inj q s.brk (sym e ∙ lawful.get-insert s.flows key j s.brk absent ∙ rw t refl),
      )
      | inr t ↦
          let old : T.get s.flows j ≡ some q =
            sym (lawful.get-insert s.flows key j s.brk absent ∙ rw t refl) ∙ e in
          inr (old, v.below j q old)
    ]

    entered-live :
        (k : Key) (q : ℕ)
        → T.get entered.flows k ≡ some q
        → (g : OsdpiFlow) × (entered.flow_at q ≡ some g)
    entered-live k q e = elim (get-entered k q e) [
      | inl (same, new) ↦ (f, rw (==_of_eq q s.brk new) refl)
      | inr (old, lt) ↦ let (g, at) = v.live k q old in (g, rw (==_of_ne q s.brk (omega arith)) at)
    ]

    entered-apart :
        (j k : Key) (q : ℕ)
        → T.get entered.flows j ≡ some q
        → T.get entered.flows k ≡ some q
        → j ≡ k
    entered-apart j k q e e' = elim (get-entered j q e) [
      | inl (is_j, new) ↦ elim (get-entered k q e') [
        | inl (is_k, _) ↦ is_j ∙ sym is_k
        | inr (_, lt) ↦ absurd (omega arith)
      ]
      | inr (old, lt) ↦ elim (get-entered k q e') [
        | inl (_, new) ↦ absurd (omega arith)
        | inr (old', _) ↦ v.apart j k q old old'
      ]
    ]

    pub entered-Counted : Counted s entered key f s.brk
    entered-Counted = record {
      valid = record {
        live = entered-live;
        below = λ k q e. elim (get-entered k q e) [
          | inl (_, new) ↦ omega arith
          | inr (_, lt) ↦ omega arith
        ];
        apart = entered-apart;
      };
      flow = λ j.
          rw (lawful.get-insert s.flows key j s.brk absent) (elim (Bool-cases (str_eq j key)) [
            | inl t ↦ rw (t, pointed, ==_of_eq s.brk s.brk refl) refl
            | inr t ↦ rw t (
                pointed-write s.flow_at s.brk (some f) (T.get s.flows j)
                  (λ q e same. absurd (omega (arith, v.below j q e))))
          ]);
      found = lawful.get-insert s.flows key key s.brk absent ∙ rw (str_eq_refl key) refl;
    }
