-- ===== src/Broker/Tests/Answering.antt =====
-- The operations of clients on the run of Broker/Tests.antt.
use golang_mq.Base.{◌∷◌, ◌≡◌, refl, true, [], Perm, string_eq, nat_eq}
use golang_mq.Base.Map.{values, lookup, IsDistinct}
use golang_mq.Protocol.Unmarshal.{unmarshal_channel_open}
use golang_mq.Broker.Connections.{open_channel}
use golang_mq.Broker.Connections.Reopening.{close_channel-open_channel}
use golang_mq.Protocol.{Envelope, channel_open, channel_close, basic_nack}
use golang_mq.Json.{num, obj, end, field, names, parse_uint, null}
use golang_mq.Broker.Range.{in_order}
use golang_mq.Broker.State.{Exchange}
use golang_mq.Broker.Exchanges.{new_exchange, bind, get_queues}
use golang_mq.Broker.Exchanges.Routing.{bound, get_queues-perm}
use golang_mq.Broker.Core.{bind_queue, publish, register, ack}
use golang_mq.Broker.Core.Acks.{AckResult, ack-result}
use golang_mq.Broker.Core.Declaring.{BindResult, bind-result}
use golang_mq.Broker.Core.Registering.{RegisterResult, register-result}
use golang_mq.Broker.Core.Publishing.{PublishResult, publish-result}
use golang_mq.Broker.Channels.{nack}
use golang_mq.Broker.Channels.Nacks.{NackResult, nack-result}
use golang_mq.Broker.Connections.{handle, close_channel, disconnect}
use golang_mq.Broker.Connections.Closing.{Closes, close_channel-Closes, Ends, disconnect-Ends}
use golang_mq.Broker.Runs.Bounds.{handle-IsWell}
use golang_mq.Broker.Invariant.{IsWell}
use golang_mq.Broker.Tests.{envelope, served, delivering, delivering-IsWell}

ack-result_example : AckResult in_order "jobs" 1 delivering (ack in_order "jobs" 1 delivering)
ack-result_example = ack-result in_order "jobs" 1 delivering delivering-IsWell

nack-result_example : NackResult in_order 1 1 delivering true (nack in_order 1 1 true delivering)
nack-result_example = nack-result in_order 1 1 delivering delivering-IsWell true

publish-result_example :
    PublishResult "work" "k" [] in_order served (publish in_order "work" "k" [] served)
publish-result_example = publish-result "work" "k" [] in_order served

register-result_example :
    RegisterResult "worker" "jobs" 1 served (register "worker" "jobs" 1 served)
register-result_example = register-result "worker" "jobs" 1 served

bind-result_example :
    BindResult "work" "jobs" "other" served (bind_queue "work" "jobs" "other" served)
bind-result_example = bind-result "work" "jobs" "other" served

abbrev two_bound : Exchange
two_bound = bind "a" 7 "k" (bind "b" 8 "k" (new_exchange "work"))

get_queues-perm_example : Perm (get_queues in_order "k" two_bound) (values (bound "k" two_bound))
get_queues-perm_example = get_queues-perm in_order "k" two_bound distinct
  where
    distinct : IsDistinct two_bound.bindings
    distinct = unfold bind new_exchange IsDistinct lookup in (refl, tt)

close_channel-Closes_example :
    Closes in_order 0
      (envelope basic_nack null)
      delivering
      (close_channel in_order 0 (envelope basic_nack null) delivering)
close_channel-Closes_example =
    close_channel-Closes in_order 0 (envelope basic_nack null) delivering delivering-IsWell

disconnect-Ends_example : Ends in_order 0 delivering (disconnect in_order 0 delivering)
disconnect-Ends_example = disconnect-Ends in_order 0 delivering delivering-IsWell

handle-IsWell_example : IsWell (handle in_order 0 (envelope basic_nack null) delivering)
handle-IsWell_example =
    handle-IsWell in_order 0 (envelope basic_nack null) delivering delivering-IsWell

abbrev opening : Envelope
opening = envelope channel_open (obj (field "id" (num (b'1' ∷ [])) end))

close_channel-open_channel_example :
    (close_channel in_order 0
      (envelope channel_close null)
      (open_channel 0 opening delivering)).queue
    ≡ delivering.queue
close_channel-open_channel_example =
    close_channel-open_channel in_order 0 opening (envelope channel_close null) delivering same
  where
    same : 1 ≡ (unmarshal_channel_open opening.payload).value.id
    same = unfold unmarshal_channel_open names parse_uint in refl
