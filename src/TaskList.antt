-- ===== src/TaskList.antt =====
-- linux_task_list/main.c: the module that prints the tree of tasks. A task is its pid, its name and
-- its children; a pid is not negative.
pub mod Preorder
use os_study.Prelude.{ℕ, zero, suc, ◌+◌, ◌-◌, List, [], ◌∷◌, ◌++◌, codes}
use os_study.CLib.Decimal.{print_int}
use os_study.Server.World.{Text}

mutual
  pub data Task : Type 0 where
    task : ℕ → Text → Tasks → Task

  pub data Tasks : Type 0 where
    nil : Tasks
    cons : Task → Tasks → Tasks

-- "%*s" of " ": the blanks of a width, one at least.
unfoldable pub blanks : ℕ → Text
blanks zero = codes " "
blanks (suc zero) = codes " "
blanks (suc (suc n)) = b' ' ∷ blanks (suc n)

-- "%*s\\_ [%d] %s\n"
abbrev pub line : ℕ → ℕ → Text → Text
line offset pid comm =
    blanks offset ++ (codes "\\_ [" ++ (print_int pid ++ (codes "] " ++ (comm ++ codes "\n"))))

-- `list_for_each` over the children of a task: what `printk` is called with, in order.
unfoldable pub print_task : Tasks → ℕ → List Text
print_task Tasks.nil offset = []
print_task (Tasks.cons (Task.task pid comm children) siblings) offset =
    line offset pid comm ∷ (print_task children (offset + 4) ++ print_task siblings offset)

-- From `init_task`.
unfoldable pub m_init : Task → List Text
unfolding print_task
m_init (Task.task pid comm children) =
    codes "Loading Module\n"
    ∷ (codes "-- [" ++ (print_int pid ++ (codes "] " ++ comm)))
    ∷ print_task children 4
