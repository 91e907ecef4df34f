-- ===== src/Consensus/Poa/Suspension.antt =====
-- internal/consensus/poa.go: the suspension of validators that produce no blocks.
use klingnet.Prelude.{
  ℕ, ◌-◌, ◌*◌, Bool, true, false, not, ◌&&◌, List, [], ◌∷◌, Option, none, some, length, ltb, leb,
  if◌then◌else◌, contains, bytes_eq, ◌≡◌, arith, All, Bool-cases, inl, inr, ◌<◌, beq_refl,
}
use klingnet.Prelude.Assoc.{lookup, insert}
use klingnet.Prelude.Int.{sub_u64}
use klingnet.Consensus.Poa.{Key, Poa, index_of, delay_at}

abbrev pub suspension_window : ℕ
suspension_window = 200

abbrev pub min_active_validators : ℕ
min_active_validators = 1

-- RecordBlockProduction
unfoldable pub record_block_production : Poa → Key → ℕ → Poa
record_block_production p signer height = record p {
  last_produced = insert signer height p.last_produced;
  current_height = if ltb p.current_height height then height else p.current_height;
}

-- SetCurrentHeight
unfoldable pub set_current_height : Poa → ℕ → Poa
set_current_height p height = record p { current_height = height }

-- ResetSuspensions
unfoldable pub reset_suspensions : Poa → Poa
reset_suspensions p = record p { last_produced = []; current_height = 0 }

-- whether a validator of that last height stays in the active set
unfoldable pub is_recent : ℕ → Option ℕ → Bool
is_recent current none = leb current suspension_window
is_recent current (some last) = leb (sub_u64 current last) suspension_window

unfoldable pub filter_active : Poa → List Key → List Key
filter_active p [] = []
filter_active p (v ∷ vs) =
    let rest = filter_active p vs in
    if is_recent p.current_height (lookup v p.last_produced) then v ∷ rest else rest

-- effectiveSetLocked
unfoldable pub effective_set : Poa → List Key
effective_set p =
    if ltb p.current_height suspension_window
    then p.validators
    else let active = filter_active p p.validators in
      if ltb (length active) min_active_validators then p.validators else active

-- wouldViolateMinActive
unfoldable pub would_violate_min_active : Poa → Key → Bool
would_violate_min_active p key =
    let active = effective_set p in
    contains key active && ltb (length active - 1) min_active_validators

-- isSuspendedLocked, of a key that is not nil
unfoldable pub is_suspended : Poa → Key → Bool
is_suspended p key =
    if ltb p.current_height suspension_window
    then false
    else if is_recent p.current_height (lookup key p.last_produced)
    then false
    else not (would_violate_min_active p key)

-- BackupDelayEffective, in milliseconds
unfoldable pub backup_delay_effective : Poa → ℕ → ℕ
backup_delay_effective p timestamp = elim p.signer [
  | none ↦ 0
  | some key ↦
      if is_suspended p key
      then p.block_time * 1000
      else let effective = effective_set p in
        if leb (length effective) 1
        then 0
        else delay_at (length effective) p.block_time timestamp (index_of key effective)
]

-- Every key of the first list is in the second.
abbrev pub IsWithin : List Key → List Key → Type 0
IsWithin ks vs = All (λ k. contains k vs ≡ true) ks

IsWithin-cons : (k : Key) (ks vs : List Key) → IsWithin ks vs → IsWithin ks (k ∷ vs)
IsWithin-cons k [] vs h = tt
IsWithin-cons k (x ∷ ks) vs h = (ground (arith, h.0), IsWithin-cons k ks vs h.1)

IsWithin-refl : (vs : List Key) → IsWithin vs vs
IsWithin-refl [] = tt
IsWithin-refl (v ∷ vs) = (ground (arith, beq_refl v), IsWithin-cons v vs vs (IsWithin-refl vs))

filter_active-IsWithin : (p : Poa) (vs : List Key) → IsWithin (filter_active p vs) vs
unfolding filter_active
filter_active-IsWithin p [] = tt
filter_active-IsWithin p (v ∷ vs) =
    let rest = IsWithin-cons v (filter_active p vs) vs (filter_active-IsWithin p vs) in
    elim (Bool-cases (is_recent p.current_height (lookup v p.last_produced))) [
      | inl recent ↦ rw recent (ground (arith, beq_refl v), rest)
      | inr stale ↦ rw stale rest
    ]

-- The effective set has only validators, and it is not empty if there is a validator.
pub effective_set-IsWithin :
    (p : Poa)
    → 0 < length p.validators
    → IsWithin (effective_set p) p.validators × (0 < length (effective_set p))
unfolding effective_set
effective_set-IsWithin p some_one = elim (Bool-cases (ltb p.current_height suspension_window)) [
  | inl young ↦ rw young (IsWithin-refl p.validators, some_one)
  | inr old ↦
      elim (Bool-cases (ltb (length (filter_active p p.validators)) min_active_validators)) [
        | inl few ↦ rw old (rw few (IsWithin-refl p.validators, some_one))
        | inr enough ↦ rw old (rw enough (filter_active-IsWithin p p.validators, ground arith))
      ]
]

-- Where the set has two validators, the height exceeds the window and both have produced no block
-- for longer than the window, the effective set is both, but each of them is suspended.
pub is_suspended_all :
    (p : Poa) (v w : Key)
    → p.validators ≡ v ∷ w ∷ []
    → suspension_window < p.current_height
    → is_recent p.current_height (lookup v p.last_produced) ≡ false
    → is_recent p.current_height (lookup w p.last_produced) ≡ false
    → (effective_set p ≡ v ∷ w ∷ []) × (is_suspended p v ≡ true) × (is_suspended p w ≡ true)
unfolding effective_set is_suspended would_violate_min_active filter_active
is_suspended_all p v w e old stale_v stale_w = ground (arith, e, stale_v, stale_w)
