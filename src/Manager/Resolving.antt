-- ===== src/Manager/Resolving.antt =====
-- A connection by name in src/ClientBase.tpp, from connect() over lwIP's answer to the manager's
-- task.
use async_tcpsock.Os.{Os}
