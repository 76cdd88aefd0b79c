-- ===== src/Websocket/Run.antt =====
-- The end of `Run` in internal/rpc/websocket/ws_server.go, which is the code of the HTTP server.
use gorpcbench.Go.Errors.{Result}
use gorpcbench.Http1.Run

unfoldable pub run : (served : Result (Unit {0})) → Result (Unit {0})
run served = Run.run served
