-- ===== src/Site/Reconcile/Failure.antt =====
-- How `doReconcile` of controllers/site/stagingsite_controller.go ends where a handler fails.
