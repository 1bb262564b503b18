-- ===== src/Server/Startup/Closing.antt =====
-- The server of server/server.go after the function that New returned.
use go_ldlm.Server.{Server}
