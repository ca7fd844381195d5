-- ===== src/ObjectFifo/Tests.antt =====
-- A ring of three objects of two bytes.
use firefly_zephyr.Base.{ℕ, ◌≡◌, refl, true, false, none, some, List, [], ◌∷◌, arith}
use firefly_zephyr.Base.Bytes.{slice, copy_in}
use firefly_zephyr.ObjectFifo.{ObjectFifo, initialize}
use firefly_zephyr.ObjectFifo.Objects
use firefly_zephyr.ObjectFifo.Objects.{Op, Reply}
use firefly_zephyr.ObjectFifo.Refine.{IsValid, contents}
use firefly_zephyr.ObjectFifo.Client.{
  call, run, call_keeps-IsValid, initialize_empty-IsValid, run_refines_objects,
}

abbrev storage : List ℕ
storage = 0 ∷ 0 ∷ 0 ∷ 0 ∷ 0 ∷ 0 ∷ 0 ∷ []

abbrev ring : ObjectFifo
ring = record {
  buffer = storage;
  object_size = 2;
  size = 3;
  head = 2;
  tail = 2;
  is_allocated = false;
  asserts = 0;
}

abbrev script : List Op
script =
    Op.begin (1 ∷ 2 ∷ [])
    ∷ Op.commit
    ∷ Op.begin (3 ∷ 4 ∷ [])
    ∷ Op.begin (5 ∷ 6 ∷ [])
    ∷ Op.commit
    ∷ Op.begin (7 ∷ 8 ∷ [])
    ∷ Op.view 1
    ∷ Op.deallocate
    ∷ Op.view 0
    ∷ Op.get_count
    ∷ []

ring-IsValid : IsValid ring
ring-IsValid = record {
  stored = omega arith;
  small = omega arith;
  head_in = omega arith;
  tail_in = omega arith;
  room = λ a. cc;
}

run-ring :
    run ring script
    ≡ Reply.granted true
      ∷ Reply.done
      ∷ Reply.granted true
      ∷ Reply.granted false
      ∷ Reply.done
      ∷ Reply.granted false
      ∷ Reply.seen (some (3 ∷ 4 ∷ []))
      ∷ Reply.done
      ∷ Reply.seen (some (3 ∷ 4 ∷ []))
      ∷ Reply.count 1
      ∷ []
unfolding run slice copy_in
run-ring = refl

run_refines_objects_example : run ring script ≡ Objects.run 2 (contents ring) script
run_refines_objects_example = run_refines_objects script ring-IsValid (omega arith)

initialize_empty-IsValid_example :
    IsValid (initialize storage 7 2 0)
    × (contents (initialize storage 7 2 0) ≡ record { queue = []; pending = none; asserts = 0 })
initialize_empty-IsValid_example =
    initialize_empty-IsValid storage 7 2 0 (omega arith) (omega arith) (omega arith) (omega arith)

call_keeps-IsValid_example : IsValid (call ring Op.commit).1
call_keeps-IsValid_example = call_keeps-IsValid Op.commit ring-IsValid
