-- ===== src/Lifecycle/BridgeStates.antt =====
-- The state machine of bridges (operator/gefyra/bridgestate.py).
pub mod Ways
use gefyra.Prelude.{ℕ, Bool, ◌==◌, Option, none, some}

pub data State : Type 0 where
  requested installing installed creating active restoring error terminating : State

pub data Event : Type 0 where
  install set_installed activate establish restore impair terminate : Event

-- The transitions that the class declares, without their actions.
unfoldable pub next : Event → State → Option State
next install requested = some installing
next install installing = some installing
next install installed = none
next install creating = none
next install active = none
next install restoring = none
next install error = some installing
next install terminating = none
next set_installed requested = some installed
next set_installed installing = some installed
next set_installed installed = some installed
next set_installed creating = none
next set_installed active = none
next set_installed restoring = some installed
next set_installed error = some installed
next set_installed terminating = none
next activate requested = none
next activate installing = none
next activate installed = some creating
next activate creating = some creating
next activate active = none
next activate restoring = none
next activate error = some creating
next activate terminating = none
next establish requested = none
next establish installing = none
next establish installed = none
next establish creating = some active
next establish active = none
next establish restoring = none
next establish error = some active
next establish terminating = none
next restore requested = none
next restore installing = none
next restore installed = some restoring
next restore creating = none
next restore active = some restoring
next restore restoring = some restoring
next restore error = some restoring
next restore terminating = none
next impair requested = some error
next impair installing = some error
next impair installed = some error
next impair creating = some error
next impair active = some error
next impair restoring = none
next impair error = some error
next impair terminating = none
next terminate requested = some terminating
next terminate installing = some terminating
next terminate installed = some terminating
next terminate creating = some terminating
next terminate active = some terminating
next terminate restoring = some terminating
next terminate error = some terminating
next terminate terminating = some terminating

abbrev pub index : State → ℕ
index requested = 0
index installing = 1
index installed = 2
index creating = 3
index active = 4
index restoring = 5
index error = 6
index terminating = 7

-- `bridge.<state>.is_active`
abbrev pub same_state : State → State → Bool
same_state s t = index s == index t
