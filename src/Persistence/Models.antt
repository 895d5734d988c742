-- ===== src/Persistence/Models.antt =====
-- persistence/models.py: the durable identity and clock of a node, with their guards.
use advanced_distributed_sys.Base.{
  ℕ, suc, ◌≡◌, not, ◌∷◌, Result, ok, raise, value_error, ◌==◌, if◌then◌else◌, arith,
}
use advanced_distributed_sys.Base.Int.{ℤ, pos, negsuc}
use advanced_distributed_sys.Order.{Str}
use advanced_distributed_sys.Causal.Actor.{CausalActor}
use advanced_distributed_sys.Causal.Version.{VersionVector, get}

pub record DurableNodeIdentity : Type 0 where
  pub node_uuid : Str
  pub configured_node_id : Str
  pub causal_incarnation : ℕ

-- `DurableNodeIdentity(...)`, with the guards of `__post_init__`
unfoldable pub make_identity : Str → Str → ℤ → Result DurableNodeIdentity
make_identity node_uuid (c ∷ cs) (pos (suc n)) =
    ok (record { node_uuid = node_uuid; configured_node_id = c ∷ cs; causal_incarnation = suc n })
make_identity _ _ _ = raise value_error

pub record DurableCausalState : Type 0 where
  pub actor : CausalActor
  pub local_counter : ℕ
  pub frontier : VersionVector

-- `DurableCausalState(...)`, with the guards of `__post_init__`
unfoldable pub make_state : CausalActor → ℤ → VersionVector → Result DurableCausalState
make_state actor (negsuc n) frontier = raise value_error
make_state actor (pos n) frontier =
    if not (get frontier actor == n)
    then raise value_error
    else ok (record { actor = actor; local_counter = n; frontier = frontier })

-- the state of a frontier at its own component
pub make_state-get :
    (actor : CausalActor) (frontier : VersionVector)
    → make_state actor (pos (get frontier actor)) frontier
      ≡ ok (record { actor = actor; local_counter = get frontier actor; frontier = frontier })
unfolding make_state
make_state-get actor frontier = ground arith
