-- ===== src/Launcher/Status.antt =====
-- What the launcher (src/launcher.cc) runs and reports.
