-- ===== src/Manager/Supervise/Example.antt =====
-- src/manager.rs: a pool of two, and a history of four rounds, for examples.
use polychrome_php.Prelude.{ℕ, ◌+◌, ◌*◌, Bool, true, false, List, [], ◌∷◌, none, some, ok}
use polychrome_php.Bytes.{codes}
use polychrome_php.Config.{Config}
use polychrome_php.Manager.Worker.{Worker}
use polychrome_php.Manager.Loop.{
  State, sigterm, sigchld, signaled, Attempt, polled, Exit, Round, second,
}

-- A pool of two, with a timeout of 30 seconds.
abbrev pub site : Config
site = record {
  root = codes "/srv/app";
  listen = codes "127.0.0.1:9000";
  workers = 2;
  timeout = 30;
  preload = false;
  ini = none;
  defines = [];
}

-- The i-th child of a round is born as `base + i`.
abbrev pub births : ℕ → ℕ → Attempt
births base i = record {
  calls = record {
    socketpair = ok (record { parent = 100 + i; child = 200 + i });
    fork = ok (base + i);
    born = 0;
  };
  failed_at = 0;
}

-- A round in which nothing happens, at `now` seconds.
abbrev pub quiet : ℕ → Round
quiet now = record {
  now = now * second;
  attempt = births 40;
  poll = polled;
  stamps = λ _. [];
  deliveries = [];
  clock = now * second;
  expiry_now = λ _. now * second;
  exits = [];
}

-- The pool is filled; both children accept a connection, and one datagram more follows.
abbrev pub filling : Round
filling = record (quiet 1) { stamps = λ _. second ∷ (9 * second) ∷ [] }

-- A request to stop, with 30 seconds to go.
abbrev pub stopping : Round
stopping = record (quiet 2) {
  deliveries =
      record { signal = sigchld; now = 2 * second }
      ∷ record { signal = sigterm; now = 2 * second }
      ∷ [];
}

abbrev pub ending : Round
ending = record (quiet 41) { exits = killed_exit 40 ∷ killed_exit 41 ∷ [] }
  where
    killed_exit : ℕ → Exit
    killed_exit pid = record {
      pid = pid;
      status = signaled 9;
      elapsed_at = 41 * second;
      failed_at = 41 * second;
    }

abbrev pub history : List Round
history = filling ∷ stopping ∷ quiet 40 ∷ ending ∷ []

abbrev pub busy : ℕ → Bool → Worker
busy events killed = record { events = events; started = some second; killed = killed; born = 0 }

abbrev pub drained : State
drained = record {
  workers = (40, busy 100 false) ∷ (41, busy 101 false) ∷ [];
  draining = some (32 * second);
  retry_at = 0;
  failures = 0;
  ready = true;
  fatal = none;
}

abbrev pub filled : State
filled = record drained { draining = none }
