-- ===== src/Receiver/Switching.antt =====
-- A whole switch of a simulcast track between two layers of a receiver.
use mini_sfu.Base.{List}
use mini_sfu.Receiver.Feed.{Feed}
