-- ===== src/Backward/Link/Order.antt =====
-- The pipe between the engine and the backward child keeps commands and answers in step:
-- deltaserve/backward_process.py with the loop of deltaserve/bwd_services/base.py.
use delta_serve_v_llm.Common.{◌≡◌, refl, sym, ap, ◌∙◌, List, [], ◌∷◌, ◌++◌, map}
use mathlib.Core.List.{append_assoc}
use delta_serve_v_llm.Backward.Child.{Command}
use delta_serve_v_llm.Backward.Child.Protocol.{Kind, kind, is_ready, answer, answers}
use delta_serve_v_llm.Backward.Link.{System}

pub answers-append :
    {F : Type 0} (xs ys : List (Command F)) → answers (xs ++ ys) ≡ answers xs ++ answers ys
answers-append [] ys = refl
answers-append (c ∷ cs) ys =
    ap (λ (t : List Kind). answer c ++ t) (answers-append cs ys)
    ∙ sym (append_assoc (answer c) (answers cs) (answers ys))

-- Every command sent was taken or is still in the pipe, in order; what was received, then what is
-- still in the pipe, answers the commands taken, in order.
pub record InStep {F R : Type 0} (s : System F R) : Type 0 where
  pub taken : List (Command F)
  pub all : s.sent ≡ taken ++ s.parent.to_child
  pub matched : map kind (s.received ++ s.parent.from_child) ≡ is_ready ∷ answers taken
