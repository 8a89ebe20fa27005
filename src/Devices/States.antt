-- ===== src/Devices/States.antt =====
-- Reads and writes of the link objects.
use sandi.Prelude.{
  ℕ, ◌+◌, ◌≤◌, ◌≡◌, refl, Bool, true, false, Option, some, List, [], ◌∷◌, if◌then◌else◌, eqb, count,
  count-append, count-some, count-none, arith, subst, sym,
}
use sandi.Devices.Link.{
  ConnectionState, CallEnd, device_unavailable, state_at, set_state, settles_call, settle_once,
  reject_all, without,
}

pub state_at-serial :
    (serial : ℕ) (states : List ConnectionState) (state : ConnectionState)
    → state_at serial states ≡ some state
    → state.serial ≡ serial
unfolding state_at
state_at-serial serial [] state e = ground arith
state_at-serial serial (s ∷ states) state e = ground (arith, state_at-serial serial states state)

pub state_at-set_state :
    (serial : ℕ) (new : ConnectionState) (states : List ConnectionState) (old : ConnectionState)
    → state_at new.serial states ≡ some old
    → state_at serial (set_state new states)
      ≡ (if eqb new.serial serial then some new else state_at serial states)
unfolding state_at set_state
state_at-set_state serial new [] old e = ground arith
state_at-set_state serial new (s ∷ states) old e =
    ground (arith, state_at-set_state serial new states old)

-- How often a call is pending.
unfoldable pub pending_at : ℕ → List ConnectionState → ℕ
pending_at id [] = 0
pending_at id (s ∷ states) = count (eqb id) s.pending + pending_at id states

pub pending_at-set_state :
    (id : ℕ) (new : ConnectionState) (states : List ConnectionState) (old : ConnectionState)
    → state_at new.serial states ≡ some old
    → pending_at id (set_state new states) + count (eqb id) old.pending
      ≡ pending_at id states + count (eqb id) new.pending
unfolding state_at set_state pending_at
pending_at-set_state id new [] old e = ground arith
pending_at-set_state id new (s ∷ states) old e =
    ground (arith, pending_at-set_state id new states old)

pub count-le-pending_at :
    (id serial : ℕ) (states : List ConnectionState) (state : ConnectionState)
    → state_at serial states ≡ some state
    → count (eqb id) state.pending ≤ pending_at id states
unfolding state_at pending_at
count-le-pending_at id serial [] state e = ground arith
count-le-pending_at id serial (s ∷ states) state e =
    ground (arith, count-le-pending_at id serial states state)

pub count-without :
    (n id : ℕ) (ids : List ℕ)
    → count (eqb n) (without id ids) ≡ (if eqb n id then 0 else count (eqb n) ids)
count-without n id [] = ground arith
count-without n id (x ∷ ids) = ground (arith, count-without n id ids)

pub count-settle_once :
    (n id : ℕ) (how : CallEnd) (settled : List (ℕ × CallEnd))
    → count (settles_call n) settled ≤ 1
    → count (settles_call n) (settle_once id how settled)
      ≡ (if eqb id n then 1 else count (settles_call n) settled)
count-settle_once n id how settled once = ground (
  arith,
  count-some (settles_call id) settled,
  count-none (settles_call id) settled,
  count-append (settles_call n) settled ((id, how) ∷ []),
)

pub count-reject_all :
    (n : ℕ) (ids : List ℕ) (settled : List (ℕ × CallEnd))
    → count (eqb n) ids + count (settles_call n) settled ≤ 1
    → count (settles_call n) (reject_all ids settled)
      ≡ count (eqb n) ids + count (settles_call n) settled
unfolding reject_all
count-reject_all n [] settled once = omega arith
count-reject_all n (id ∷ ids) settled once = ground (
  arith,
  count-settle_once n id device_unavailable settled,
  count-reject_all n ids (settle_once id device_unavailable settled),
)

-- What holds of the new object and of each old one holds wherever the objects are read after a write.
pub set_state_ind :
    (P : Option ConnectionState → Type 0) (serial : ℕ) (new : ConnectionState)
    (states : List ConnectionState) (old : ConnectionState)
    → state_at new.serial states ≡ some old
    → (new.serial ≡ serial → P (some new))
    → (eqb new.serial serial ≡ false → P (state_at serial states))
    → P (state_at serial (set_state new states))
set_state_ind P serial new states old found written kept =
    subst P (sym (state_at-set_state serial new states old found)) (go (eqb new.serial serial) refl)
  where
    go :
        (same : Bool)
        → eqb new.serial serial ≡ same
        → P (if same then some new else state_at serial states)
    go true e = written (ground arith)
    go false e = kept e
