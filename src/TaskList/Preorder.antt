-- ===== src/TaskList/Preorder.antt =====
-- The lines are the tasks below, in preorder, each four columns behind its parent.
use os_study.Prelude.{ℕ, ◌+◌, ◌*◌, ◌≡◌, refl, sym, ap, ap₂, ◌∙◌, arith, List, [], ◌∷◌, ◌++◌}
use os_study.Server.World.{Text}
use os_study.TaskList.{Task, Tasks, line, print_task}

-- A task with its depth.
record Entry : Type 0 where
  depth : ℕ
  pid : ℕ
  comm : Text

preorder : Tasks → ℕ → List Entry
preorder Tasks.nil d = []
preorder (Tasks.cons (Task.task pid comm children) siblings) d =
    record { depth = d; pid = pid; comm = comm }
    ∷ (preorder children (d + 1) ++ preorder siblings d)

lines : List Entry → List Text
lines [] = []
lines (e ∷ es) = line (4 * (e.depth + 1)) e.pid e.comm ∷ lines es

lines-append : (es fs : List Entry) → lines (es ++ fs) ≡ lines es ++ lines fs
unfolding lines
lines-append [] fs = refl
lines-append (e ∷ es) fs =
    ap (λ ls. line (4 * (e.depth + 1)) e.pid e.comm ∷ ls) (lines-append es fs)

-- Below a task of depth `d`, with its children one deeper.
print_task-preorder :
    (ts : Tasks) (d offset : ℕ)
    → offset ≡ 4 * (d + 1)
    → print_task ts offset ≡ lines (preorder ts d)
unfolding print_task preorder lines
print_task-preorder Tasks.nil d offset e = refl
print_task-preorder (Tasks.cons (Task.task pid comm children) siblings) d offset e =
    ap₂ (λ o ls. line o pid comm ∷ ls) e
      (ap₂ (λ a b. a ++ b) (print_task-preorder children (d + 1) (offset + 4) (omega (arith, e)))
          (print_task-preorder siblings d offset e)
        ∙ sym (lines-append (preorder children (d + 1)) (preorder siblings d)))
