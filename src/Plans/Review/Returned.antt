-- ===== src/Plans/Review/Returned.antt =====
-- A plan that a reviewer returns for changes cannot be submitted again.
use collmind_backend.Entities.Plan.{Plan}
use collmind_backend.Db.{Db}
