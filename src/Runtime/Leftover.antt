-- ===== src/Runtime/Leftover.antt =====
-- Which launches leave a process behind: also one that fails, when the failure is that of the cgroup.
use execgo_runtime.Runtime.Child
use execgo_runtime.Runtime.Child.{Call, Child}
