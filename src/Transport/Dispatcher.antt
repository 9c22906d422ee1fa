-- ===== src/Transport/Dispatcher.antt =====
-- lib/transport/src/ResponseDispatcher.cpp: the sinks of the events. A callback is known by a
-- number; calling it is one entry of `delivered`. The cache keeps no response, since
-- `kMaxCachedResponses` is 0, so it is left out with `Replay`, and `Clear`, which empties it. The
-- unordered map of the sinks is a list in the order of their registration.
use kinetic_mirror_matrix_es.Prelude.{
  ℕ, ◌==◌, ◌%◌, ◌^◌, ◌+◌, List, [], ◌∷◌, ◌++◌, map, if◌then◌else◌,
}
use kinetic_mirror_matrix_es.Transport.Events.{Event}

-- A sink and its token.
pub record Sink : Type 0 where
  pub token : ℕ
  pub callback : ℕ

pub record Delivery : Type 0 where
  pub callback : ℕ
  pub event : Event

pub record ResponseDispatcher : Type 0 where
  pub next_token : ℕ
  pub sinks : List Sink
  pub delivered : List Delivery

abbrev pub no_sinks : ResponseDispatcher
no_sinks = record { next_token = 1; sinks = []; delivered = [] }

-- The assignment `sinks_[token] = cb`: an old entry of the token is gone.
unfoldable pub without_token : ℕ → List Sink → List Sink
without_token token [] = []
without_token token (s ∷ ss) =
    if s.token == token then without_token token ss else s ∷ without_token token ss

-- Of a callback that is not empty.
unfoldable pub register_sink : ℕ → ResponseDispatcher → ResponseDispatcher
unfolding without_token
register_sink callback d = record d {
  next_token = (d.next_token + 1) % 2 ^ 32;
  sinks =
      without_token d.next_token d.sinks
      ++ (record { token = d.next_token; callback = callback } ∷ []);
}

unfoldable pub unregister_sink : ℕ → ResponseDispatcher → ResponseDispatcher
unfolding without_token
unregister_sink token d = record d { sinks = without_token token d.sinks }

unfoldable pub emit : Event → ResponseDispatcher → ResponseDispatcher
emit event d = record d {
  delivered = d.delivered ++ map (λ s. record { callback = s.callback; event = event }) d.sinks;
}
