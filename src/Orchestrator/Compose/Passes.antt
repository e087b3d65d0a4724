-- ===== src/Orchestrator/Compose/Passes.antt =====
-- `_reconcile`. An instance in a list is replaced and removed by its place:
-- two instances with all fields equal are not told apart by the code.
use mathlib.Core.List.{reverse}
use pycrate.Base.{
  ℕ, zero, suc, ◌+◌, ◌-◌, Bool, true, false, not, ◌&&◌, ◌||◌, String, List, [], ◌∷◌, ◌++◌, none,
  some, count, ltb, str_eq, if◌then◌else◌,
}
use pycrate.Base.Dicts.{get, set}
use pycrate.Base.Exec.{Exec, Result, ok, err, ◌>>=◌, ◌>>◌}
use pycrate.Engine.Config.{ValueError}
use pycrate.Orchestrator.Manifest.{ServiceConfig, Services}
use pycrate.Orchestrator.Compose.{
  ServiceState, starting, running, unhealthy, stopped, restarting, error, ServiceInstance,
  ComposeEngine, instances_of, put_instances, create_instance, stop_instance, runs,
}

abbrev pub is_active : ServiceState → Bool
is_active running = true
is_active starting = true
is_active _ = false

abbrev pub active : List ServiceInstance → ℕ
active is = count (λ i. is_active i.state) is

-- `inst.container and not inst.container.is_running`, in the state RUNNING.
abbrev pub exited : ServiceInstance → ComposeEngine → Bool
exited i e =
    elim i.container [ none ↦ false | some id ↦ not (runs id e.manager) ]
    && elim i.state [ running ↦ true | _ ↦ false ]

abbrev pub noticed : ComposeEngine → ServiceInstance → ServiceInstance
noticed e i = if exited i e then record i { state = stopped } else i

abbrev pub should_restart : String → ServiceState → Bool
should_restart policy stopped = str_eq policy "always"
should_restart policy error = str_eq policy "always" || str_eq policy "on-failure"
should_restart policy unhealthy = str_eq policy "always" || str_eq policy "on-failure"
should_restart policy _ = false

-- The instance that takes the place of the old one, which has been stopped. Where the creation
-- raises, the old one stays.
unfoldable pub restart_instance :
    ServiceConfig
    → ServiceInstance
    → ComposeEngine
    → Result ValueError Unit × ServiceInstance × ComposeEngine
restart_instance service i e =
    let (old, e') =
      stop_instance (record i { state = restarting; restart_count = i.restart_count + 1 }) e in
    let (result, e'') = create_instance service i.replica_index e' in
    elim result [
      | err x ↦ (err x, old, e'')
      | ok new ↦ (ok tt, record new { restart_count = old.restart_count }, e'')
    ]

-- What a loop over a list has done: its result, the list and the engine.
abbrev pub Swept : Type 0
Swept = Result ValueError Unit × List ServiceInstance × ComposeEngine

abbrev pub in_front : ServiceInstance → Swept → Swept
in_front i (r, is, e) = (r, i ∷ is, e)

-- The first loop of a pass.
unfoldable pub restart_each : ServiceConfig → List ServiceInstance → ComposeEngine → Swept
unfolding restart_instance
restart_each service [] e = (ok tt, [], e)
restart_each service (i ∷ is) e =
    let seen = noticed e i in
    let (result, new, e') = restart_instance service seen e in
    let kept = in_front seen (restart_each service is e) in
    let after = in_front new (restart_each service is e') in
    if should_restart service.restart seen.state
    then elim result [ ok _ ↦ after | err x ↦ (err x, new ∷ is, e') ]
    else kept

-- `for i in range(index, index + n)`
unfoldable pub scale_up : ServiceConfig → ℕ → ℕ → List ServiceInstance → ComposeEngine → Swept
scale_up service index zero is e = (ok tt, is, e)
scale_up service index (suc n) is e =
    let (result, e') = create_instance service index e in
    elim result [
      | err x ↦ (err x, is, e')
      | ok new ↦ scale_up service (suc index) n (is ++ new ∷ []) e'
    ]

-- The loop over the reversed list.
unfoldable pub drop_excess :
    ℕ → List ServiceInstance → ComposeEngine → List ServiceInstance × ComposeEngine
drop_excess zero is e = (is, e)
drop_excess (suc excess) [] e = ([], e)
drop_excess (suc excess) (i ∷ is) e =
    let (gone, e') = stop_instance i e in
    let dropped = drop_excess excess is e' in
    let kept = drop_excess (suc excess) is e in
    if is_active i.state then dropped else (i ∷ kept.0, kept.1)

abbrev pub scale_down : ℕ → List ServiceInstance → ComposeEngine → Swept
scale_down excess is e =
    let (left, e') = drop_excess excess (reverse is) e in (ok tt, reverse left, e')

abbrev pub rescale : ServiceConfig → List ServiceInstance → ComposeEngine → Swept
rescale service is e =
    let n = active is in
    if ltb n service.replicas
    then scale_up service n (service.replicas - n) is e
    else if ltb service.replicas n
    then scale_down (n - service.replicas) is e
    else (ok tt, is, e)

abbrev pub then_rescale : ServiceConfig → Swept → Swept
then_rescale service (ok _, is, e) = rescale service is e
then_rescale service (err x, is, e) = (err x, is, e)

-- A list that is in the dictionary is changed in place, also by a loop that raises.
abbrev pub stored : String → Bool → Swept → Result ValueError Unit × ComposeEngine
stored name known (ok _, is, e) = (ok tt, put_instances name is e)
stored name known (err x, is, e) = (err x, if known then put_instances name is e else e)

abbrev pub is_known : String → ComposeEngine → Bool
is_known name e = elim (get name e.instances) [ none ↦ false | some is ↦ true ]

unfoldable pub reconcile_service : String → ServiceConfig → Exec ValueError ComposeEngine Unit
unfolding restart_each instances_of get set scale_up drop_excess
reconcile_service name service e =
    stored name (is_known name e)
      (then_rescale service (restart_each service (instances_of name e) e))

unfoldable pub reconcile_each : Services → Exec ValueError ComposeEngine Unit
unfolding reconcile_service ◌>>=◌
reconcile_each [] e = (ok tt, e)
reconcile_each ((name, service) ∷ rest) e =
    (reconcile_service name service >> reconcile_each rest) e

unfoldable pub reconcile : Exec ValueError ComposeEngine Unit
unfolding reconcile_each
reconcile e = reconcile_each e.services e
