-- ===== src/Fifo/Tests.antt =====
-- A ring of four bytes.
use firefly_zephyr.Base.{◌≡◌, refl, true, false, none, some, List, [], ◌∷◌, arith}
use firefly_zephyr.Fifo.{Fifo}
use firefly_zephyr.Fifo.Queue
use firefly_zephyr.Fifo.Queue.{Op, Reply}
use firefly_zephyr.Fifo.Refine.{IsValid, contents}
use firefly_zephyr.Fifo.Client.{call, run, call-IsValid, run_refines_queue}

-- 8, then 9, round the end of the buffer.
abbrev wrapped : Fifo
wrapped = record { buffer = 9 ∷ 7 ∷ 6 ∷ 8 ∷ []; size = 4; head = 3; tail = 1 }

abbrev script : List Op
script = Op.put 1 ∷ Op.put 2 ∷ Op.get_count ∷ Op.get ∷ Op.get ∷ Op.get ∷ Op.get ∷ Op.is_empty ∷ []

wrapped-IsValid : IsValid wrapped
wrapped-IsValid = omega arith

run-wrapped :
    run wrapped script
    ≡ Reply.accepted true
      ∷ Reply.accepted false
      ∷ Reply.count 3
      ∷ Reply.received (some 8)
      ∷ Reply.received (some 9)
      ∷ Reply.received (some 1)
      ∷ Reply.received none
      ∷ Reply.empty true
      ∷ []
unfolding run
run-wrapped = refl

run_refines_queue_example : run wrapped script ≡ Queue.run 3 (contents wrapped) script
run_refines_queue_example = run_refines_queue script wrapped-IsValid

call-IsValid_example : IsValid (call wrapped (Op.put 1)).1
call-IsValid_example = call-IsValid (Op.put 1) wrapped-IsValid
