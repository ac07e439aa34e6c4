-- ===== src/Controller/World.antt =====
-- What a pass of the reconciler reads and writes: the NodePool's annotations, the NodeClaims, the
-- nodes and the placeholder Pods on the API server, and what was done, the last first.
--
-- `version` is the pool's resourceVersion, which every write of it raises. `script` says how the
-- next calls of the API turn out; where it ends they all go through. A call that fails changes
-- nothing. A conditional write may read a lagging cache: it then writes nothing, since its update
-- carries an old resourceVersion.
use node_rotation_controller.Base.{ℕ, String, Bool, Option, List, Time, Duration, Annotations}
use node_rotation_controller.NodeOps.{Node}

pub record NodeClaim : Type 0 where
  pub name : String
  pub created_at : Time
  pub annotations : Annotations
  pub deleting : Bool
  pub node_name : String
  pub expire_after : Option Duration
  pub tgp : Option Duration
  pub conditions : List (String × String)

-- How a call turns out. A write that reads first may meet a lagging read in its last attempt, with
-- the annotations that it shows and, of a node, whether it is cordoned; or one that shows nothing.
pub data Attempt : Type 0 where
  goes_through : Attempt
  fails : Attempt
  lags : Bool → Annotations → Attempt
  lags_gone : Attempt

-- The recorder's calls that the state machine makes.
pub data Signal : Type 0 where
  success : Signal
  expired : String → Signal
  failure : String → Signal
  forceful_fallback : String → Signal
  surge_wait_observed : Duration → Signal
  drain_observed : Duration → Signal
  window_missed : Signal
  pool_forgotten : Signal
  policy_conflict : Bool → Signal

-- A delete carries the mirror that the NodePool holds when it is issued.
pub data Effect : Type 0 where
  pool_written : Annotations → Effect
  claim_written : String → Annotations → Effect
  claim_deleted : String → String → Effect
  node_written : String → Effect
  placeholder_created : String → Effect
  placeholder_deleted : String → Effect
  reported : Signal → Effect

pub record World : Type 0 where
  pub pool : Annotations
  pub version : ℕ
  pub claims : String → Option NodeClaim
  pub nodes : List Node
  pub placeholders : String → Bool
  pub effects : List Effect
  pub script : List Attempt

pub data Result {ℓ} (A : Type ℓ) : Type ℓ where
  ok : A → Result A
  err : Result A

abbrev pub M {ℓ} : Type ℓ → Type ℓ
M A = World → Result A × World
