-- ===== src/Yolandapp.antt =====
-- yolandapp/: the port of the library to C++, with strings and maps of the standard library in place
-- of blocks and tables.
pub mod Buffer
pub mod EventDispatcher
pub mod EventLoop
pub mod Channel
pub mod TcpConnection
pub mod Http
pub mod ThreadPool
pub mod TcpServer
pub mod Log
pub mod EventLoopThread
mod Tests
