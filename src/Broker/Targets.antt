-- ===== src/Broker/Targets.antt =====
-- The desktops that a turn's calls may reach: src/surfaces/api/devices/tool-broker.ts over the registry of
-- src/surfaces/api/devices/device-registry.ts.
use sandi.Prelude.{
  ℕ, ◌≡◌, refl, sym, subst, ap, ◌∙◌, ◌⊎◌, inl, inr, String, ◌==◌, eq_iff, Bool, not, ◌&&◌, Option,
  none, some, List, [], ◌∷◌, filter, find, All, arith, if_ind,
}
use sandi.Prelude.Text.{trim, is_empty}
use sandi.Prelude.Dict.{lookup, values}
use sandi.Devices.Link.{ConnectionState, DeviceRegistry, state_at}
use sandi.Devices.{connection, state_of}
use sandi.Devices.Consistent.{Consistent, Placed}
use sandi.Broker.{
  Desktop, desktop_of, desktops_loop, desktops_for_identity, TurnBinding, Target, reaches, refuses,
  sole, default_of, default_desktop, only_key, by_id_or_name, short_id, resolve_among, resolve_for,
  resolve_desktop, identity_desktops, found_or_unknown, target_desktop,
}

-- The registered link of a key belongs to an identity.
abbrev pub OwnedBy : Option String → Option ConnectionState → Type 0
OwnedBy identity none = ⊥
OwnedBy identity (some state) = identity ≡ some state.identity_id

abbrev pub Belongs : Option String → DeviceRegistry → String → Type 0
Belongs identity r key = OwnedBy identity (connection key r)

abbrev IfAny : {A : Type 0} → (A → Type 0) → Option A → Type 0
IfAny P none = Unit {0}
IfAny P (some a) = P a

find-All :
    {A : Type 0} (P : A → Type 0) (p : A → Bool) (xs : List A) → All P xs → IfAny P (find p xs)
find-All P p [] h = tt
find-All P p (x ∷ xs) h = if_ind (IfAny P) (p x) (λ _. h.0) (λ _. find-All P p xs h.1)

filter-All :
    {A : Type 0} (P : A → Type 0) (p : A → Bool) (xs : List A) → All P xs → All P (filter p xs)
filter-All P p [] h = tt
filter-All P p (x ∷ xs) h =
    if_ind (All P) (p x) (λ _. (h.0, filter-All P p xs h.1)) (λ _. filter-All P p xs h.1)

module _ (r : DeviceRegistry) (h : Consistent r) where
  desktop_of-All :
      (identity : String) (serial : ℕ) (rest : List Desktop) (o : Option ConnectionState)
      → state_at serial r.states ≡ o
      → Placed r.connections serial o
      → All (λ d. Belongs (some identity) r d.key) rest
      → All (λ d. Belongs (some identity) r d.key) (desktop_of identity o rest)
  desktop_of-All identity serial rest none found placed others = others
  desktop_of-All identity serial rest (some state) found placed others =
      if_ind (All (λ d. Belongs (some identity) r d.key))
        (not state.closed && (state.identity_id == identity))
        (λ mine.
          let placed_here : lookup state.key r.connections ≡ some serial =
            ground (arith, placed, mine) in
          let found_here : connection state.key r ≡ some state =
            ap (λ o. state_of o r.states) placed_here ∙ found in
          (
            subst (OwnedBy (some identity)) (sym found_here)
                (ground (arith, mine, eq_iff state.identity_id identity)),
            others,
          ))
        (λ _. others)

  desktops_loop-All :
      (identity : String) (serials : List ℕ)
      → All (λ d. Belongs (some identity) r d.key) (desktops_loop identity r.states serials)
  unfolding desktops_loop
  desktops_loop-All identity [] = tt
  desktops_loop-All identity (serial ∷ serials) =
      desktop_of-All identity serial (desktops_loop identity r.states serials)
        (state_at serial r.states) refl (h.placed serial) (desktops_loop-All identity serials)

  -- A key that a turn may reach: its own, or the key of a link of its identity.
  abbrev pub Allowed : TurnBinding → Target → Type 0
  Allowed binding (refuses why) = Unit {0}
  Allowed binding (reaches key) = (key ≡ binding.key) ⊎ Belongs binding.identity_id r key

  desktops-All :
      (identity : String)
      → All (λ d. Belongs (some identity) r d.key) (desktops_for_identity identity r)
  unfolding desktops_for_identity
  desktops-All identity = desktops_loop-All identity (values r.connections)

  sole-Allowed :
      (binding : TurnBinding) (desktops : List Desktop)
      → All (λ d. Belongs binding.identity_id r d.key) desktops
      → Allowed binding (sole binding.key desktops)
  sole-Allowed binding [] all = inl refl
  sole-Allowed binding (only ∷ []) all = inr all.0
  sole-Allowed binding (one ∷ two ∷ more) all = tt

  default_desktop-Allowed : (binding : TurnBinding) → Allowed binding (default_desktop binding r)
  unfolding default_desktop default_of
  default_desktop-Allowed binding = go binding.identity_id refl
    where
      go :
          (identity : Option String)
          → binding.identity_id ≡ identity
          → Allowed binding (default_of binding identity r)
      go none e = inl refl
      go (some identity) e =
          if_ind (Allowed binding) binding.origin_device (λ _. inl refl)
            (λ _. sole-Allowed binding (desktops_for_identity identity r) (
              subst (λ o. All (λ d. Belongs o r d.key) (desktops_for_identity identity r)) (sym e)
                (desktops-All identity)))

  module _ (to_lower : String → String) where
    only_key-IfAny :
        (binding : TurnBinding) (named : List Desktop)
        → All (λ d. Belongs binding.identity_id r d.key) named
        → IfAny (Belongs binding.identity_id r) (only_key named)
    only_key-IfAny binding [] all = tt
    only_key-IfAny binding (only ∷ []) all = all.0
    only_key-IfAny binding (one ∷ two ∷ more) all = tt

    by_id_or_name-IfAny :
        (binding : TurnBinding) (by_id : Option Desktop) (named : List Desktop)
        → IfAny (λ d. Belongs binding.identity_id r d.key) by_id
        → All (λ d. Belongs binding.identity_id r d.key) named
        → IfAny (Belongs binding.identity_id r) (by_id_or_name by_id named)
    by_id_or_name-IfAny binding none named h_id all = only_key-IfAny binding named all
    by_id_or_name-IfAny binding (some desktop) named h_id all = h_id

    resolve_desktop-IfAny :
        (binding : TurnBinding) (selector : String)
        → IfAny (Belongs binding.identity_id r) (resolve_desktop to_lower binding selector r)
    unfolding resolve_desktop resolve_for resolve_among
    resolve_desktop-IfAny binding selector = go binding.identity_id refl
      where
        go :
            (identity : Option String)
            → binding.identity_id ≡ identity
            → IfAny (Belongs binding.identity_id r) (resolve_for to_lower identity selector r)
        go none e = tt
        go (some identity) e =
            let all : All (λ d. Belongs binding.identity_id r d.key)
                (desktops_for_identity identity r) =
              subst (λ o. All (λ d. Belongs o r d.key) (desktops_for_identity identity r)) (sym e)
                (desktops-All identity) in
            by_id_or_name-IfAny binding
              (find (λ d. short_id to_lower d.key == to_lower (trim selector))
                (desktops_for_identity identity r))
              (filter (λ d. to_lower d.device_id == to_lower (trim selector))
                (desktops_for_identity identity r))
              (find-All (λ d. Belongs binding.identity_id r d.key) _
                (desktops_for_identity identity r) all)
              (filter-All (λ d. Belongs binding.identity_id r d.key) _
                (desktops_for_identity identity r) all)

    found_or_unknown-Allowed :
        (binding : TurnBinding) (selector : String) (desktops : List Desktop) (o : Option String)
        → IfAny (Belongs binding.identity_id r) o
        → Allowed binding (found_or_unknown o selector desktops)
    found_or_unknown-Allowed binding selector desktops none belongs = tt
    found_or_unknown-Allowed binding selector desktops (some key) belongs =
        if_ind (Allowed binding) (is_empty key) (λ _. tt) (λ _. inr belongs)

    pub target_desktop-Allowed :
        (binding : TurnBinding) (selector : Option String)
        → Allowed binding (target_desktop to_lower binding selector r)
    unfolding target_desktop
    target_desktop-Allowed binding none = default_desktop-Allowed binding
    target_desktop-Allowed binding (some selector) =
        found_or_unknown-Allowed binding selector (identity_desktops binding.identity_id r)
          (resolve_desktop to_lower binding selector r) (resolve_desktop-IfAny binding selector)
