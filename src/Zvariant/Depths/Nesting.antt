-- ===== src/Zvariant/Depths/Nesting.antt =====
-- Runs of the depth counters of zvariant/src/container_depths.rs, as the serializers and the
-- deserializers make them: one step for each container entered or left.
use zbus.Prelude.{
  ℕ, ◌+◌, ◌≤◌, ◌<◌, ◌≡◌, refl, ap, sym, ◌↔◌, List, [], ◌∷◌, Result, ok, err, ◌>>=◌, bind_ok, length,
  ltb-cases, inl, inr, arith,
}
use zbus.Zvariant.Depths.{
  MaxDepthExceeded, ContainerDepths, u8, check, inc_structure, inc_array, inc_variant, inc_maybe,
  dec_structure, dec_array, dec_maybe, default_depths,
}

pub data Container : Type 0 where
  struct arr variant maybe : Container

pub enter : Container → ContainerDepths → Result MaxDepthExceeded ContainerDepths
enter struct d = inc_structure d
enter arr d = inc_array d
enter variant d = inc_variant d
enter maybe d = inc_maybe d

-- Leaving a variant is dropping the copy of the counters that entering it made.
pub leave : Container → ContainerDepths → ContainerDepths → ContainerDepths
leave struct outer d = dec_structure d
leave arr outer d = dec_array d
leave variant outer d = outer
leave maybe outer d = dec_maybe d

pub enter_all : List Container → ContainerDepths → Result MaxDepthExceeded ContainerDepths
enter_all [] d = ok d
enter_all (c ∷ cs) d = enter c d >>= enter_all cs

-- The nesting without bounds, and what is allowed of it.
abbrev pub deeper : Container → ContainerDepths → ContainerDepths
deeper struct d = record d { structure = d.structure + 1 }
deeper arr d = record d { array = d.array + 1 }
deeper variant d = record d { variant = d.variant + 1 }
deeper maybe d = record d { maybe = d.maybe + 1 }

abbrev pub total : ContainerDepths → ℕ
total d = d.structure + d.array + d.variant + d.maybe

abbrev pub IsValid : ContainerDepths → Type 0
IsValid d = (d.structure ≤ 32) × (d.array ≤ 32) × (total d ≤ 64)

-- The error names the first limit that is passed.
abbrev pub IsRefused : MaxDepthExceeded → ContainerDepths → Type 0
IsRefused MaxDepthExceeded.structure d = 32 < d.structure
IsRefused MaxDepthExceeded.array d = (d.structure ≤ 32) × (32 < d.array)
IsRefused MaxDepthExceeded.container d = (d.structure ≤ 32) × (d.array ≤ 32) × (64 < total d)

-- Counters that do not overflow in the sum.
abbrev IsSmall : ContainerDepths → Type 0
IsSmall d = total d < 256

data Verdict (d : ContainerDepths) : Type 0 where
  allowed : IsValid d → check d ≡ ok d → Verdict d
  refused : (e : MaxDepthExceeded) → IsRefused e d → check d ≡ err e → Verdict d

verdict : (d : ContainerDepths) → IsSmall d → Verdict d
unfolding check
verdict d h =
    let sum : u8 (u8 (u8 (d.structure + d.array) + d.variant) + d.maybe) ≡ total d = omega arith in
    elim (ltb-cases 32 d.structure) [
      | inl (t, s) ↦ refused MaxDepthExceeded.structure s (rw t refl)
      | inr (t, s) ↦ elim (ltb-cases 32 d.array) [
        | inl (t', a) ↦ refused MaxDepthExceeded.array (s, a) (rw (t, t') refl)
        | inr (t', a) ↦ elim (ltb-cases 64 (total d)) [
          | inl (t'', c) ↦ refused MaxDepthExceeded.container (s, a, c) (rw (t, t', sum, t'') refl)
          | inr (t'', c) ↦ allowed (s, a, c) (rw (t, t', sum, t'') refl)
        ]
      ]
    ]

-- Entering a container from valid counters is checking the deeper ones.
enter_lem : (c : Container) (d : ContainerDepths) → IsValid d → enter c d ≡ check (deeper c d)
unfolding enter inc_structure inc_array inc_variant inc_maybe
enter_lem struct d v = ap (λ n. check (record d { structure = n })) (omega arith)
enter_lem arr d v = ap (λ n. check (record d { array = n })) (omega arith)
enter_lem variant d v = ap (λ n. check (record d { variant = n })) (omega arith)
enter_lem maybe d v = ap (λ n. check (record d { maybe = n })) (omega arith)

deeper-IsSmall : (c : Container) (d : ContainerDepths) → IsValid d → IsSmall (deeper c d)
deeper-IsSmall struct d v = omega arith
deeper-IsSmall arr d v = omega arith
deeper-IsSmall variant d v = omega arith
deeper-IsSmall maybe d v = omega arith

-- From valid counters, entering a container succeeds exactly when one more container of its kind
-- keeps within 32 structures, 32 arrays and 64 containers, and then counts it.
pub enter-eq-ok_iff :
    (c : Container) (d out : ContainerDepths)
    → IsValid d
    → (enter c d ≡ ok out) ↔ ((out ≡ deeper c d) × IsValid out)
enter-eq-ok_iff c d out v =
    let step = enter_lem c d v in
    elim (verdict (deeper c d) (deeper-IsSmall c d v)) [
      | allowed fine e ↦
          ((λ h. let same : deeper c d ≡ out = cc in (sym same, rw (← same) fine)), λ (same, _). cc)
      | refused er bad e ↦ ((λ h. absurd (cc)), λ (same, w). absurd (refuse er bad (rw same at w)))
    ]
  where
    refuse : (er : MaxDepthExceeded) → IsRefused er (deeper c d) → ¬ IsValid (deeper c d)
    refuse MaxDepthExceeded.structure bad w = omega arith
    refuse MaxDepthExceeded.array bad w = omega arith
    refuse MaxDepthExceeded.container bad w = omega arith

-- From valid counters, entering a container fails exactly with the error of the first limit that
-- one more container of its kind passes: of structures, of arrays, then of all containers.
pub enter-eq-err_iff :
    (c : Container) (d : ContainerDepths) (e : MaxDepthExceeded)
    → IsValid d
    → (enter c d ≡ err e) ↔ IsRefused e (deeper c d)
enter-eq-err_iff c d e v =
    let step = enter_lem c d v in
    elim (verdict (deeper c d) (deeper-IsSmall c d v)) [
      | allowed fine eq ↦ ((λ h. absurd (cc)), λ bad. absurd (refuse e bad fine))
      | refused er bad eq ↦ (
        (λ h. let same : er ≡ e = cc in rw (← same) bad),
        λ bad'. let same : er ≡ e = unique er e bad bad' in cc,
      )
    ]
  where
    refuse : (er : MaxDepthExceeded) → IsRefused er (deeper c d) → ¬ IsValid (deeper c d)
    refuse MaxDepthExceeded.structure bad w = omega arith
    refuse MaxDepthExceeded.array bad w = omega arith
    refuse MaxDepthExceeded.container bad w = omega arith

    unique : (a b : MaxDepthExceeded) → IsRefused a (deeper c d) → IsRefused b (deeper c d) → a ≡ b
    unique MaxDepthExceeded.structure MaxDepthExceeded.structure h k = refl
    unique MaxDepthExceeded.array MaxDepthExceeded.array h k = refl
    unique MaxDepthExceeded.container MaxDepthExceeded.container h k = refl
    unique MaxDepthExceeded.structure MaxDepthExceeded.array h k = absurd (omega arith)
    unique MaxDepthExceeded.structure MaxDepthExceeded.container h k = absurd (omega arith)
    unique MaxDepthExceeded.array MaxDepthExceeded.structure h k = absurd (omega arith)
    unique MaxDepthExceeded.array MaxDepthExceeded.container h k = absurd (omega arith)
    unique MaxDepthExceeded.container MaxDepthExceeded.structure h k = absurd (omega arith)
    unique MaxDepthExceeded.container MaxDepthExceeded.array h k = absurd (omega arith)

-- Leaving a container that was entered from valid counters restores them.
pub leave-enter :
    (c : Container) (d out : ContainerDepths) → IsValid d → enter c d ≡ ok out → leave c d out ≡ d
unfolding leave dec_structure dec_array dec_maybe
leave-enter struct d out v h =
    let same = ((enter-eq-ok_iff struct d out v).0 h).0 in
    rw same (ap (λ n. record d { structure = n }) (omega arith))
leave-enter arr d out v h =
    let same = ((enter-eq-ok_iff arr d out v).0 h).0 in
    rw same (ap (λ n. record d { array = n }) (omega arith))
leave-enter variant d out v h = refl
leave-enter maybe d out v h =
    let same = ((enter-eq-ok_iff maybe d out v).0 h).0 in
    rw same (ap (λ n. record d { maybe = n }) (omega arith))

abbrev pub structures : List Container → ℕ
structures [] = 0
structures (struct ∷ cs) = structures cs + 1
structures (arr ∷ cs) = structures cs
structures (variant ∷ cs) = structures cs
structures (maybe ∷ cs) = structures cs

abbrev pub arrays : List Container → ℕ
arrays [] = 0
arrays (struct ∷ cs) = arrays cs
arrays (arr ∷ cs) = arrays cs + 1
arrays (variant ∷ cs) = arrays cs
arrays (maybe ∷ cs) = arrays cs

-- What is left of the limits.
abbrev HasRoom : List Container → ContainerDepths → Type 0
HasRoom cs d =
    (structures cs + d.structure ≤ 32) × (arrays cs + d.array ≤ 32) × (length cs + total d ≤ 64)

room-IsValid : (cs : List Container) (d : ContainerDepths) → HasRoom cs d → IsValid d
room-IsValid cs d h = (omega arith, omega arith, omega arith)

room-deeper :
    (c : Container) (cs : List Container) (d : ContainerDepths)
    → HasRoom (c ∷ cs) d ↔ HasRoom cs (deeper c d)
room-deeper struct cs d =
    ((λ h. (omega arith, omega arith, omega arith)), λ h. (omega arith, omega arith, omega arith))
room-deeper arr cs d =
    ((λ h. (omega arith, omega arith, omega arith)), λ h. (omega arith, omega arith, omega arith))
room-deeper variant cs d =
    ((λ h. (omega arith, omega arith, omega arith)), λ h. (omega arith, omega arith, omega arith))
room-deeper maybe cs d =
    ((λ h. (omega arith, omega arith, omega arith)), λ h. (omega arith, omega arith, omega arith))

abbrev Succeeds : List Container → ContainerDepths → Type 0
Succeeds cs d = (out : ContainerDepths) × (enter_all cs d ≡ ok out) × IsValid out

enter_all-fits : (cs : List Container) (d : ContainerDepths) → HasRoom cs d → Succeeds cs d
unfolding enter_all
enter_all-fits [] d h = (d, refl, room-IsValid [] d h)
enter_all-fits (c ∷ cs) d h =
    let rest = (room-deeper c cs d).0 h in
    let v = room-IsValid (c ∷ cs) d h in
    let here = (enter-eq-ok_iff c d (deeper c d) v).1 (refl, room-IsValid cs (deeper c d) rest) in
    let (out, e, w) = enter_all-fits cs (deeper c d) rest in (out, rw here e, w)

enter_all-room :
    (cs : List Container) (d out : ContainerDepths)
    → IsValid d
    → enter_all cs d ≡ ok out
    → HasRoom cs d
unfolding enter_all
enter_all-room [] d out v h = (omega arith, omega arith, omega arith)
enter_all-room (c ∷ cs) d out v h =
    let (mid, here, rest) = bind_ok (enter c d) (enter_all cs) h in
    let (same, w) = (enter-eq-ok_iff c d mid v).0 here in
    (room-deeper c cs d).1 (rw same at (enter_all-room cs mid out w rest))

-- Starting from no containers, a nesting is accepted exactly when it has at most 32 structures,
-- 32 arrays and 64 containers in all.
pub enter_all_iff :
    (cs : List Container)
    → ((out : ContainerDepths) × (enter_all cs default_depths ≡ ok out))
      ↔ ((structures cs ≤ 32) × (arrays cs ≤ 32) × (length cs ≤ 64))
enter_all_iff cs = (
  (λ (out, h).
      let room = enter_all-room cs default_depths out (omega arith, omega arith, omega arith) h in
      (omega arith, omega arith, omega arith)),
  λ h. accept (enter_all-fits cs default_depths (omega arith, omega arith, omega arith)),
)
  where
    accept :
        Succeeds cs default_depths
        → (out : ContainerDepths) × (enter_all cs default_depths ≡ ok out)
    accept (out, e, w) = (out, e)

-- The same of the steps by themselves.
module _ (d out : ContainerDepths) (v : IsValid d) where
  pub inc_array-IsValid : inc_array d ≡ ok out → IsValid out × (dec_array out ≡ d)
  unfolding enter leave
  inc_array-IsValid h = (((enter-eq-ok_iff arr d out v).0 h).1, leave-enter arr d out v h)

  pub inc_structure-IsValid : inc_structure d ≡ ok out → IsValid out
  unfolding enter
  inc_structure-IsValid h = ((enter-eq-ok_iff struct d out v).0 h).1

  pub inc_variant-IsValid : inc_variant d ≡ ok out → IsValid out
  unfolding enter
  inc_variant-IsValid h = ((enter-eq-ok_iff variant d out v).0 h).1

-- A container that fits.
module _ (d : ContainerDepths) (v : IsValid d) where
  pub inc_array-deeper :
      IsValid (deeper arr d) → (inc_array d ≡ ok (deeper arr d)) × (dec_array (deeper arr d) ≡ d)
  unfolding enter leave
  inc_array-deeper w =
      let e = (enter-eq-ok_iff arr d (deeper arr d) v).1 (refl, w) in
      (e, leave-enter arr d (deeper arr d) v e)

  pub inc_structure-deeper : IsValid (deeper struct d) → inc_structure d ≡ ok (deeper struct d)
  unfolding enter
  inc_structure-deeper w = (enter-eq-ok_iff struct d (deeper struct d) v).1 (refl, w)

  pub dec_structure-deeper : IsValid (deeper struct d) → dec_structure (deeper struct d) ≡ d
  unfolding enter leave
  dec_structure-deeper w =
      leave-enter struct d (deeper struct d) v
        ((enter-eq-ok_iff struct d (deeper struct d) v).1 (refl, w))

  pub inc_variant-deeper : IsValid (deeper variant d) → inc_variant d ≡ ok (deeper variant d)
  unfolding enter
  inc_variant-deeper w = (enter-eq-ok_iff variant d (deeper variant d) v).1 (refl, w)
