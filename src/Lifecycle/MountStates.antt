-- ===== src/Lifecycle/MountStates.antt =====
-- The state machine of bridge mounts (operator/gefyra/bridge_mount_state.py).
pub mod Paths
use gefyra.Prelude.{ℕ, Bool, ◌==◌, Option, none, some}

pub data State : Type 0 where
  requested preparing installing active restoring error missing terminated : State

pub data Event : Type 0 where
  arrange install activate restore impair mark_missing recover terminate : Event

-- The transitions that the class declares, without their conditions and actions.
unfoldable pub next : Event → State → Option State
next arrange requested = some preparing
next arrange preparing = some preparing
next arrange installing = none
next arrange active = none
next arrange restoring = some preparing
next arrange error = some preparing
next arrange missing = none
next arrange terminated = none
next install requested = none
next install preparing = some installing
next install installing = some installing
next install active = none
next install restoring = some preparing
next install error = none
next install missing = none
next install terminated = none
next activate requested = none
next activate preparing = none
next activate installing = some active
next activate active = some active
next activate restoring = none
next activate error = none
next activate missing = none
next activate terminated = none
next restore requested = none
next restore preparing = some restoring
next restore installing = some restoring
next restore active = some restoring
next restore restoring = some restoring
next restore error = some restoring
next restore missing = none
next restore terminated = none
next impair requested = some error
next impair preparing = some error
next impair installing = some error
next impair active = some error
next impair restoring = none
next impair error = some error
next impair missing = none
next impair terminated = none
next mark_missing requested = some missing
next mark_missing preparing = some missing
next mark_missing installing = some missing
next mark_missing active = some missing
next mark_missing restoring = some missing
next mark_missing error = some missing
next mark_missing missing = none
next mark_missing terminated = none
next recover requested = none
next recover preparing = none
next recover installing = none
next recover active = none
next recover restoring = none
next recover error = none
next recover missing = some preparing
next recover terminated = none
next terminate requested = some terminated
next terminate preparing = some terminated
next terminate installing = some terminated
next terminate active = some terminated
next terminate restoring = some terminated
next terminate error = some terminated
next terminate missing = some terminated
next terminate terminated = some terminated

abbrev pub index : State → ℕ
index requested = 0
index preparing = 1
index installing = 2
index active = 3
index restoring = 4
index error = 5
index missing = 6
index terminated = 7

-- `bridge_mount.<state>.is_active`
abbrev pub same_state : State → State → Bool
same_state s t = index s == index t
