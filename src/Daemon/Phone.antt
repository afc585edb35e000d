-- ===== src/Daemon/Phone.antt =====
-- From the request that arms a watch to the phone: internal/api, internal/poll, internal/notify and
-- cmd/scootlessd/main.go together.
use scootless.Base.{List, string_eq}
use scootless.Poll.Run.{Run}
use scootless.Config.{Config}
