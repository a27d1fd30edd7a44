-- ===== src/Lib.antt =====
-- The resource locks of lockbot: users of a chat lock, share, book and release the nodes or the
-- cards of a cluster, and a timer frees what has run out.
--
-- One bot holds a dictionary of resources. A handler runs under the state lock: it parses the
-- command, checks the acquisition limit, the bot's policy and the state, then either answers with an
-- error and leaves the state alone, or mutates the entries that it names, saves, and answers. The
-- timer calls the bot's sweep, which frees leases that have run out, warns, passes offers on in the
-- queues, and returns the time to its next run.
--
--   Base, Keys       helpers; the keys of nodes and cards
--   Users            python/lockbot/core/utils.py: the records of holders and waiters, durations
--   State            the state in memory (python/lockbot/core/base_bot.py, io.py): `lookup` and
--                    `modify` read and mutate the entry of a key, `nodes` is a dictionary of entries
--                    and `fleet` one of lists of cards
--   Config, Reply    the configuration values read; replies, exceptions and the early returns
--   Policy           python/lockbot/core/resource_policy.py and the two checks of base_bot.py
--   Command          parsing and duration limits of python/lockbot/core/node_bot.py
--   Sweep            `_check_and_notify` of the node bot
--   NodeBot          node_bot.py: `lock`, `slock`, `unlock`, `kickout`, `do_opkick`
--   QueueBot         python/lockbot/core/queue_bot.py: `lock` and `book`; `take` in QueueBot/Take,
--                    `kicklock`, `do_kicklock` and `do_opkick` in QueueBot/Operator, the sweep with
--                    the queues in QueueBot/Sweep
--   DeviceBot        python/lockbot/core/device_bot.py: `lock` and `slock`; parsing in
--                    DeviceBot/Parse, the releasing commands in DeviceBot/Release, the sweep and the
--                    merging of device_usage_alert.py in DeviceBot/Sweep
--   Handler          python/lockbot/core/handler.py: `_execute_text_command`, which sends a text to
--                    the bot's method, answers with help, or rejects it
--   Scheduler        python/lockbot/core/scheduler.py: the heap of due times and the sections of
--                    its lock; Scheduler/World has their interleavings as lists of events
--   Manager          python/lockbot/backend/app/bots/manager.py: the sections of the manager's lock on
--                    the entries of one bot; Manager/World has their interleavings
--   Traffic          python/lockbot/backend/app/resource_api/traffic.py: the budgets of a credential
--   Loading          python/lockbot/core/io.py: the state that a bot starts with, from its files
--   Notify           python/lockbot/backend/app/resource_api/notification_queue.py: the batches of
--                    group notifications; Notify/Queue has the queue and its interleavings
--   Outbox           python/lockbot/backend/app/resource_api/lease_contract.py and lease_history.py: the
--                    evidence of lease changes that is saved with the state
--   Tests            runs on small clusters
--
-- A handler is a function from the state to an `Outcome`: the state after it, whether it was saved,
-- and the answer. A history of a bot is a list of events; each event is one whole handler, as the
-- state lock makes it. The files beside the definitions hold the proofs, by what they prove: Cases
-- (the ways through a handler), Invariant, History, Others, Line, and so on.
--
-- The parts of the web application are shared by threads: the bot manager, the scheduler, the budgets,
-- the notification queue and the outbox. Of these a function is one section, what runs under one hold
-- of the lock, and a list of events is any interleaving of sections. The manager's and the outbox's
-- dictionaries are keyed by bot and no section touches two bots, so the model has the entries of one.
-- What a thread carries from one of its sections to the next stands in the state (the stage of a
-- transition, the leases and sends under way, a prepared save).
--
-- Loops over lists are structural recursion, so there is no fuel and every function is total. An
-- exception is a value: `failed` in a loop, `raised` in an answer; the mutations before it stay.
--
-- Conventions. A user, a node name, a device model and a tag are numbers that stand for texts; texts
-- are only compared for equality, and sorted by the order of the numbers. One reading of the clock
-- serves a handler, one the leases and queues of a sweep, and one the time of the next sweep, which is
-- computed when the state is saved. A user record of a state file has a start, under its new or its old
-- name, and a booking of a card has the new one. What a regular expression captures enters as data, and its failure to
-- match as `none`. A floating-point duration is the exact decimal. A Python set is a list without
-- doubles, in the order of first insertion. A reply is the key of its text with the users it
-- mentions. Times are whole seconds, in Traffic milliseconds. Of a text that is sent the code points
-- count, of a JSON value its size, which is a parameter.
--
-- Not modelled: the texts, the usage tables and the platforms; writing to disk, logging and
-- observers, which return nothing to the handlers; the threads of the scheduler and of the notification
-- queue; `shutdown_all` of the manager, which clears its dictionaries when the process ends; the
-- canonical form of a state and the comparison of two in lease_history.py; the queue bot over devices;
-- and the routes, the database and the other services of the web application.
pub mod Base
pub mod Keys
pub mod Users
pub mod State
pub mod Config
pub mod Reply
pub mod Policy
pub mod Command
pub mod Sweep
pub mod NodeBot
pub mod QueueBot
pub mod DeviceBot
pub mod Handler
pub mod Scheduler
pub mod Manager
pub mod Traffic
pub mod Loading
pub mod Notify
pub mod Outbox
pub mod Tests
