-- ===== src/Models.antt =====
-- chronicler/core/models.py: the values that the services and the workers pass around. A UUID is a
-- number, a `datetime`, a duration and a position in a recording are milliseconds, and the JSON text
-- of `Task.data` is the object that it encodes. `updated_at` columns, which SQLAlchemy writes and
-- only the views read, are left out.
mod Tasks
mod Transcript
mod Sources
pub use Tasks.*
pub use Transcript.*
pub use Sources.*
