-- ===== src/Topology/Address/Laws.antt =====
-- What counts as an address, and that the split loses nothing.
use argus_observability.Prelude.{
  ℕ, zero, suc, ◌+◌, ◌-◌, ◌≤◌, ◌++◌, true, not, List, [], ◌∷◌, ltb, ◌≡◌, ◌↔◌, refl, ap, sym, subst,
  ◌∙◌, ◌⊎◌, and_true, arith, length, filter, append-nil, append_assoc, Bool-cases, inl, inr,
}
use argus_observability.Prelude.Text.{Text}
use argus_observability.Topology.Build.{ServiceView}
use argus_observability.Topology.Address.{
  is_digit, all_units, ipv4_from, is_ipv4, is_address, split_from, split_addresses,
}

split_from-filter :
    (named addresses services : List ServiceView)
    → split_from named addresses services ≡ record {
      named = named ++ filter (λ s. not (is_address s.id)) services;
      addresses = addresses ++ filter (λ s. is_address s.id) services;
    }
unfolding split_from filter
split_from-filter named addresses [] = simp append-nil
split_from-filter named addresses (s ∷ services) = elim (Bool-cases (is_address s.id)) [
  | inl e ↦
      rw (e, split_from, split_from-filter named (addresses ++ (s ∷ [])) services)
        (simp append_assoc)
  | inr e ↦
      rw (e, split_from, split_from-filter (named ++ (s ∷ [])) addresses services)
        (simp append_assoc)
]

-- `splitAddresses` puts each service, in order, on the one side that `isAddress` of its id tells.
pub split_addresses-filter :
    (services : List ServiceView)
    → ((split_addresses services).named ≡ filter (λ s. not (is_address s.id)) services)
      × ((split_addresses services).addresses ≡ filter (λ s. is_address s.id) services)
unfolding split_addresses
split_addresses-filter services = rw (split_from-filter [] [] services) (refl, refl)

-- One to three decimal digits.
pub record IsGroup (g : Text) : Type 0 where
  pub digits : all_units is_digit g ≡ true
  pub at_least : 1 ≤ length g
  pub at_most : length g ≤ 3

-- A group and what follows it: nothing if no dot is to come, else a dot and the other groups.
pub record Piece (dots seen : ℕ) (s : Text) : Type 0 where
  pub group : Text
  pub rest : Text
  pub digits : all_units is_digit group ≡ true
  pub at_least : 1 ≤ seen + length group
  pub at_most : seen + length group ≤ 3
  pub follows :
      ((dots ≡ 0) × (s ≡ group))
      ⊎ ((1 ≤ dots) × (s ≡ group ++ (b'.' ∷ rest)) × (ipv4_from (dots - 1) 0 rest ≡ true))

piece : (dots seen : ℕ) (s : Text) → seen ≤ 3 → ipv4_from dots seen s ≡ true → Piece dots seen s
unfolding ipv4_from all_units
piece dots seen [] h e = record {
  group = [];
  rest = [];
  digits = refl;
  at_least = ground arith;
  at_most = omega arith;
  follows = inl (ground arith, refl);
}
piece dots seen (c ∷ s) h e = elim (Bool-cases (is_digit c)) [
  | inl d ↦
      let p = piece dots (seen + 1) s (ground arith) (ground arith) in
      record {
        group = c ∷ p.group;
        rest = p.rest;
        digits = rw (d, all_units) p.digits;
        at_least = omega arith;
        at_most = omega (arith, p.at_most);
        follows = elim p.follows [
          | inl (z, q) ↦ inl (z, ap (◌∷◌ c) q)
          | inr (z, q, r) ↦ inr (z, ap (◌∷◌ c) q, r)
        ];
      }
  | inr d ↦ record {
    group = [];
    rest = s;
    digits = refl;
    at_least = ground arith;
    at_most = omega arith;
    follows = inr (ground arith, ground arith, ground arith);
  }
]

IsGroup-of_Piece : {dots : ℕ} {s : Text} (p : Piece dots 0 s) → IsGroup p.group
IsGroup-of_Piece p = record {
  digits = p.digits;
  at_least = omega (arith, p.at_least);
  at_most = omega (arith, p.at_most);
}

-- Groups joined by dots, where `dots` says how many dots.
pub data Groups : ℕ → Text → Type 0 where
  last : {dots : ℕ} {s : Text} → dots ≡ 0 → IsGroup s → Groups dots s
  more :
      {dots k : ℕ} {s : Text} (g rest : Text)
      → dots ≡ suc k
      → IsGroup g
      → s ≡ g ++ (b'.' ∷ rest)
      → Groups k rest
      → Groups dots s

Groups-sound : (dots : ℕ) (s : Text) → ipv4_from dots 0 s ≡ true → Groups dots s
Groups-sound zero s h =
    let p = piece zero 0 s (omega arith) h in
    elim p.follows [
      | inl (z, q) ↦ last refl (subst IsGroup (sym q) (IsGroup-of_Piece p))
      | inr (z, q, r) ↦ absurd (omega arith)
    ]
Groups-sound (suc k) s h =
    let p = piece (suc k) 0 s (omega arith) h in
    elim p.follows [
      | inl (z, q) ↦ absurd (omega arith)
      | inr (z, q, r) ↦
          let e : suc k - 1 ≡ k = omega arith in
          more p.group p.rest refl (IsGroup-of_Piece p) q (Groups-sound k p.rest (rw e at r))
    ]

skip_group :
    (dots seen : ℕ) (g t : Text)
    → all_units is_digit g ≡ true
    → seen + length g ≤ 3
    → ipv4_from dots seen (g ++ t) ≡ ipv4_from dots (seen + length g) t
unfolding ipv4_from all_units
skip_group dots seen [] t d h = let e : seen + 0 ≡ seen = omega arith in rw e
skip_group dots seen (c ∷ g) t d h =
    let (here, later) = and_true (is_digit c) (all_units is_digit g) d in
    let e : seen + 1 + length g ≡ seen + suc (length g) = omega arith in
    let ih = skip_group dots (seen + 1) g t later (omega arith) in
    let room : ltb seen 3 ≡ true = ground arith in rw (here, room) (rw e at ih)

end_group : (dots n : ℕ) → dots ≡ 0 → 1 ≤ n → ipv4_from dots n [] ≡ true
unfolding ipv4_from
end_group dots n z h = ground arith

dot_group :
    (dots n : ℕ) (rest : Text)
    → 1 ≤ n
    → 1 ≤ dots
    → ipv4_from (dots - 1) 0 rest ≡ true
    → ipv4_from dots n (b'.' ∷ rest) ≡ true
unfolding ipv4_from
dot_group dots n rest h k e = ground arith

Groups-complete : {dots : ℕ} {s : Text} → Groups dots s → ipv4_from dots 0 s ≡ true
Groups-complete (last {dots} {s} z g) =
    (rw append-nil at (skip_group dots 0 s [] g.digits (omega (arith, g.at_most))))
    ∙ end_group dots (0 + length s) z (omega (arith, g.at_least))
Groups-complete (more {dots} {k} {s} g rest z h q r) =
    let e : dots - 1 ≡ k = omega arith in
    ap (ipv4_from dots 0) q
    ∙ skip_group dots 0 g (b'.' ∷ rest) h.digits (omega (arith, h.at_most))
    ∙ dot_group dots (0 + length g) rest (omega (arith, h.at_least)) (omega arith)
        (rw e (Groups-complete r))

-- `isAddress` reads as IPv4 exactly four groups of one to three digits with a dot between each two.
pub is_ipv4_iff : (id : Text) → (is_ipv4 id ≡ true) ↔ Groups 3 id
unfolding is_ipv4
is_ipv4_iff id = (Groups-sound 3 id, Groups-complete)
