-- ===== src/Memcached/Tests/Conns.antt =====
-- src/thread.c at small inputs: two connections pass through the queue.
use mage_artifact_baseline.Common.{◌≡◌, refl, List, [], ◌∷◌, arith}
use mage_artifact_baseline.Memcached.Conns.{Conns, cq_init}
use mage_artifact_baseline.Memcached.Conns.Fifo.{
  IsFifo, Call, push, pop, run_calls, spec_calls, run_calls-fifo,
}

abbrev conns : Conns
conns = record { next = λ p. 0; head = 0; tail = 0; cqi_freelist = 0 }

abbrev calls : List Call
calls = push 1 ∷ push 2 ∷ pop ∷ pop ∷ push 1 ∷ pop ∷ pop ∷ []

empty-IsFifo : IsFifo (cq_init conns) []
unfolding cq_init
empty-IsFifo = record { links = refl; tail = refl; distinct = tt }

run_calls-fifo_example : run_calls calls (cq_init conns) ≡ spec_calls calls []
run_calls-fifo_example =
    run_calls-fifo calls (cq_init conns) [] empty-IsFifo
      (omega arith, tt, (omega arith, (omega arith, tt), (omega arith, tt, tt)))
