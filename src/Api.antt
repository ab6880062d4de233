-- ===== src/Api.antt =====
-- The objects that the operator keeps in the cluster (apis/), with the fields that the modelled code
-- reads or writes.
mod Meta
mod Config
mod Site
mod Job
mod Task
mod Objects
pub use Meta.*
pub use Config.*
pub use Site.*
pub use Job.*
unfoldable pub use Job.{is_final}
pub use Task.*
pub use Objects.*
