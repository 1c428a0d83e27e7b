-- ===== src/Ws.antt =====
-- Package data_server/ws: the websocket server. Clients connect, log in and send commands; a
-- manager keeps the connected clients and the users that are logged in.
pub mod Channel
pub mod Key
pub mod Client
pub mod Code
pub mod ErrorCode
pub mod Process
pub mod Manager
pub mod System
pub mod ServerIp
pub mod UserSrv
pub mod Controllers
mod Tests
