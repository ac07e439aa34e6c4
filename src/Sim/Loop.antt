-- ===== src/Sim/Loop.antt =====
-- internal/sim/loop.go: the virtual clock. An index out of range, at which Go would panic, leaves
-- the run as it is; the indices are those of slots and records that are there.
use node_rotation_controller.Base.{
  ℕ, suc, ◌+◌, ◌-◌, ◌*◌, ◌/◌, ◌%◌, String, Bool, true, false, not, ◌&&◌, Option, none, some, List,
  [], ◌∷◌, pos, negsuc, ltb_ℤ, leb_ℤ, Time, add_time, nanos_per_minute, str_eq, put, if◌then◌else◌,
}
use node_rotation_controller.Annotations.{TimeText, state_pending, state_draining, last_rotation_at}
use node_rotation_controller.Decide.{gate_none}
use node_rotation_controller.Sim.{
  tick, SimEvent, Kind, node_is_ready, rotation_done, expire_after_breach, birth_surgeless,
  Rotation, Generation, SimNode, name_of, deadline, InFlight, Run,
}
use node_rotation_controller.Sim.Fleet.{update_at, get_elem?, emit, record_generation}

-- t.Truncate(tick), down to a minute.
unfoldable pub truncate_tick : Time → Time
truncate_tick (pos n) = pos (n - n % nanos_per_minute)
truncate_tick (negsuc n) = negsuc ((n / nanos_per_minute + 1) * nanos_per_minute - 1)

-- t, where it lies after now and before the next instant so far.
abbrev pub sooner : Time → Time → Time → Time
sooner now t next = if ltb_ℤ now t && ltb_ℤ t next then t else next

abbrev pub next_with : Time → Time → Option InFlight → Time
next_with now next none = next
next_with now next (some rot) =
    sooner now rot.done_at (if rot.surgeless then next else sooner now rot.ready_at next)

-- next
unfoldable pub next : Run → Time → Time
next r now = next_with now (add_time (truncate_tick now) tick) r.rot

-- An event of a kind at an instant, about a node.
abbrev pub event_at : Kind → Time → String → SimEvent
event_at kind at node = record {
  kind = kind;
  at = at;
  until = pos 0;
  node = node;
  replacement = "";
  surgeless = false;
  gate = gate_none;
  census = none;
}

abbrev pub set_node : ℕ → SimNode → Run → Run
set_node slot n r = record r { nodes = update_at slot (λ _. n) r.nodes }

abbrev pub edit_rotation : ℕ → (Rotation → Rotation) → Run → Run
edit_rotation i f r = record r { tl = record r.tl { rotations = update_at i f r.tl.rotations } }

abbrev pub edit_generation : Option ℕ → (Generation → Generation) → Run → Run
edit_generation none f r = r
edit_generation (some i) f r = record r {
  tl = record r.tl { generations = update_at i f r.tl.generations };
}

-- The part of advance where the surge node is Ready.
abbrev pub mark_ready : Time → InFlight → SimNode → Run → Run
mark_ready now rot n r =
    if not rot.surgeless && (str_eq n.state state_pending && leb_ℤ rot.ready_at now)
    then edit_generation rot.gen_idx (λ g. record g { ready_at = rot.ready_at })
        (edit_rotation rot.rot_idx (λ o. record o { ready = rot.ready_at })
          (emit (event_at node_is_ready rot.ready_at (name_of n))
            (set_node rot.slot (record n { state = state_draining }) r)))
    else r

abbrev pub replacement_of : InFlight → Run → SimNode → SimNode
replacement_of rot r n = record n {
  gen = suc n.gen;
  created_at = (if rot.surgeless then rot.done_at else rot.start);
  expire_after = r.template.expire_after;
  tgp = r.template.tgp;
  state = "";
  breached = false;
}

abbrev pub record_replacement : InFlight → SimNode → ℕ → Run → Run
record_replacement rot n before r =
    if rot.surgeless
    then edit_rotation rot.rot_idx (λ o. record o { to_gen = some n.gen })
        (record_generation rot.slot n birth_surgeless (some before) false r)
    else edit_generation rot.gen_idx (λ g. record g { provisional = false }) r

module _ ⦃text : TimeText⦄ where
  abbrev pub complete : InFlight → SimNode → Run → Run
  complete rot n r =
      let n' = replacement_of rot r n in
      let done = record (event_at rotation_done rot.done_at (name_of n)) {
        replacement = name_of n';
        surgeless = rot.surgeless;
      } in
      let r' = emit done (record (set_node rot.slot n' r) {
        pool_ann = put r.pool_ann last_rotation_at (text.format rot.done_at);
      }) in
      record (record_replacement rot n' n.gen
        (edit_rotation rot.rot_idx (λ o. record o { done = rot.done_at }) r')) { rot = none }

  abbrev pub advance_node : Time → InFlight → Option SimNode → Run → Run
  advance_node now rot none r = r
  advance_node now rot (some n) r =
      let r' = mark_ready now rot n r in if ltb_ℤ now rot.done_at then r' else complete rot n r'

  abbrev pub advance_flight : Time → Option InFlight → Run → Run
  advance_flight now none r = r
  advance_flight now (some rot) r = advance_node now rot (get_elem? rot.slot r.nodes) r

  -- advance
  unfoldable pub advance : Time → Run → Run
  advance now r = advance_flight now r.rot r

abbrev pub breaches : Time → SimNode → Bool
breaches now n = if n.breached then false else leb_ℤ (deadline n) now

-- The loop of breachCheck.
abbrev pub check_nodes : Time → List SimNode → Run → List SimNode × Run
check_nodes now [] r = ([], r)
check_nodes now (n ∷ ns) r =
    let hit = breaches now n in
    let n' = (if hit then record n { breached = true } else n) in
    let r' = (if hit then emit (event_at expire_after_breach (deadline n) (name_of n)) r else r) in
    let (ns', r'') = check_nodes now ns r' in (n' ∷ ns', r'')

-- breachCheck
unfoldable pub breach_check : Time → Run → Run
breach_check now r = let (ns, r') = check_nodes now r.nodes r in record r' { nodes = ns }
