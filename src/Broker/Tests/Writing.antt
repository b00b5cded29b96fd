-- ===== src/Broker/Tests/Writing.antt =====
-- Two requests of one connection, the first of which cannot be written.
use golang_mq.Base.{◌≡◌, refl, some, [], ◌∷◌, arith}
use golang_mq.Broker.Writes.{
  Request, Pump, new_pump, put, refuse, shutdown, serve, puts, refuses, serves, Steps, stays, goes,
}
use golang_mq.Broker.Writes.Accounts.{answered, buffered, IsAccounted, steps-IsAccounted}
use golang_mq.Broker.Writes.Stranded.{never-answered}

abbrev first : Request
first = record { id = 0; bytes = "a" }

abbrev second : Request
second = record { id = 1; bytes = "b" }

abbrev both_put : Pump
both_put = put "b" (put "a" new_pump)

abbrev broken : Pump
broken = serve (some "broken pipe") first (second ∷ []) both_put

broken_steps : Steps new_pump broken
unfolding put new_pump
broken_steps =
    goes (goes (goes stays (puts "a" (omega arith))) (puts "b" (omega arith)))
      (serves (some "broken pipe") first (second ∷ []) refl refl)

steps-IsAccounted_example : IsAccounted broken
steps-IsAccounted_example = steps-IsAccounted broken_steps

-- A third call finds the connection closed, and the second waits on.
broken_refuses : Steps broken (refuse broken)
unfolding serve shutdown
broken_refuses = goes stays (refuses refl)

never-answered_example : answered 1 (refuse broken).answers ≡ 0
unfolding serve shutdown put new_pump buffered
never-answered_example = never-answered 1 broken_steps refl (omega arith) broken_refuses
