-- ===== src/Client.antt =====
-- What the pages share: the application controller, the session, navigation and requests
-- (src/main/js/modules/app.js, src/main/js/modules/restApi.js).
mod Pages
mod Http
mod Controller
mod State
pub mod Laws
pub mod Hex
pub mod Query
mod Tests
pub use Pages.*
pub use Http.*
unfoldable pub use Controller.*
unfoldable pub use State.*
