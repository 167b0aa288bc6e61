-- ===== src/Ipc/Listeners.antt =====
-- listener_proxy.py: a numbered list of update listeners.
pub mod Ids
pub mod Dispatch
use fcpp_bridge.Prelude.{
  ℕ, ◌+◌, String, ◌≡◌, refl, Bool, true, false, Option, none, some, List, [], ◌∷◌, string_key,
  nat_key, ◌==◌, if◌then◌else◌, length,
}
use fcpp_bridge.Prelude.Dict.{Dict, values, has, insert, remove}
use fcpp_bridge.Ipc.Exec.{
  Result, ok, err, Exec, value_error, key_error, attribute_error, pure, raise, modify, continue,
  ◌>>=◌, ◌>>◌, for_each,
}
use fcpp_bridge.Ipc.Wire.{SwarmSnapshot}
use fcpp_bridge.Ipc.Outside.{Outside, call}

pub data Mode : Type 0 where
  sequential parallel : Mode

-- A listener is named by a number; `executor` says whether the thread pool is there.
pub record ListenerProxy : Type 0 where
  pub mode : Mode
  pub listeners : Dict ℕ ℕ
  pub next_id : ℕ
  pub executor : Bool

abbrev is_parallel : Mode → Bool
is_parallel sequential = false
is_parallel parallel = true

-- ListenerProxy(mode=mode), with the mode already one of the two
unfoldable pub new_proxy : Mode → ListenerProxy
new_proxy m = record { mode = m; listeners = []; next_id = 0; executor = is_parallel m }

-- The check of `__init__` on the mode's text.
unfoldable pub parse_mode : String → Result Mode
parse_mode s =
    if s == "sequential"
    then ok sequential
    else if s == "parallel"
    then ok parallel
    else err value_error

unfoldable pub add_listener : ℕ → ListenerProxy → Result ℕ × ListenerProxy
add_listener fn p =
    let lid = p.next_id in
    (ok lid, record p { next_id = lid + 1; listeners = insert lid fn p.listeners })

unfoldable pub remove_listener : ℕ → ListenerProxy → Result (Unit {0}) × ListenerProxy
remove_listener lid p =
    if has lid p.listeners
    then (ok tt, record p { listeners = remove lid p.listeners })
    else (err key_error, p)

unfoldable pub count_listeners : ListenerProxy → ℕ
count_listeners p = length p.listeners

-- close(): the pool is shut down
unfoldable pub close_proxy : ListenerProxy → ListenerProxy
close_proxy p = record p { executor = false }

module _ {W : Type 0} ⦃o : Outside W⦄ where
  -- How one listener is reached; `submit` of a pool that is shut down is a call on `None`.
  abbrev pub deliver : Mode → Bool → SwarmSnapshot → ℕ → Exec W (Unit {0})
  deliver sequential executor snapshot fn = o.notify fn snapshot
  deliver parallel true snapshot fn = o.submit fn snapshot
  deliver parallel false snapshot fn = raise attribute_error

  -- __call__(snapshot)
  unfoldable pub dispatch : ListenerProxy → SwarmSnapshot → Exec W (Unit {0})
  dispatch p snapshot = for_each (values p.listeners) (deliver p.mode p.executor snapshot)
