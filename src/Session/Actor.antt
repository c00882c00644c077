-- ===== src/Session/Actor.antt =====
-- internal/session/actor.go: the actor's loop as a step function. A step takes one message that
-- the select statement can receive; its outputs are the replies, the builds that it starts and
-- cancels, and the directory trees that it cleans up, in order. Contexts are read through a
-- `World`: what context.Cause returns at that moment.
pub mod State
pub mod Apply
pub mod Loop
pub mod Current
pub mod Invariant
pub mod Replies
pub mod Progress
