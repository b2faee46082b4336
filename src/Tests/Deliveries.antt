-- ===== src/Tests/Deliveries.antt =====
-- Two messages between two processes, over a queue.
use g_agent.Base.{String, List, [], ◌∷◌, ◌++◌, true, none, refl, ap, pos}
use g_agent.Messaging.Message.{AclMessage}
use g_agent.Messaging.Mq.{Calls, PushCache}
use g_agent.Messaging.Mq.Receiving.{Received, nothing_there, got, quiet, readable, Polled, Waiting}
use g_agent.Messaging.Mq.Delivery.{Pipe}
use g_agent.Tests.Texts.{offer}

-- ZeroMQ with the texts that wait in one pipe.
abbrev piped_calls : Calls (List String)
piped_calls = record {
  open_pull = λ z. (none, z);
  open_push = λ z. (none, z);
  bind = λ sock ep z. (true, z);
  connect = λ sock ep z. (true, z);
  send = λ sock raw z. (true, z ++ raw ∷ []);
  close = λ sock z. z;
  unlink = λ file z. z;
  getenv = λ var. none;
  upper = λ name. name;
  hash = λ name. 7;
  ipc_file = λ ep. none;
  ams = λ text z. none;
}

abbrev piped_poll : List String → Polled
piped_poll [] = quiet
piped_poll (t ∷ z) = readable

abbrev piped_receive : List String → Received × List String
piped_receive [] = (nothing_there, [])
piped_receive (t ∷ z) = (got t, z)

abbrev piped : Waiting (List String)
piped = record {
  clock = λ z. 0;
  poll = λ sock ms z. (piped_poll z, z);
  receive = λ sock z. piped_receive z;
}

piped-Pipe : Pipe piped_calls piped 4 3
piped-Pipe = record {
  limit = 1000;
  queued = λ z. z;
  send_queued = λ raw z h. (refl, refl);
  poll_queued = λ ms z t rest h. (ap piped_poll h, h);
  receive_queued = λ z t rest h. (ap (λ z. (piped_receive z).0) h, ap (λ z. (piped_receive z).1) h);
}

abbrev connected : PushCache
connected = record { sockets = ("bob", 4) ∷ []; pid = pos 8 }

abbrev two_offers : List AclMessage
two_offers = offer ∷ offer ∷ []
